-- ===== src/Intent/Distance.antt =====
-- brain/intent/catalog.py: `_levenshtein_distance`
pub mod Edits
pub mod Rows
pub mod Metric
use nubjuk_brain.Prelude.{
  ℕ, zero, suc, ◌+◌, ◌-◌, min, List, [], ◌∷◌, ◌++◌, Text, text_eq, length, get_or, ◌==◌,
  if◌then◌else◌,
}

-- `list(range(n))`
unfoldable pub range : ℕ → List ℕ
range zero = []
range (suc n) = range n ++ n ∷ []

-- `row[-1]`, of a row that is not empty
unfoldable pub last_cell : List ℕ → ℕ
last_cell row = get_or row (length row - 1) 0

-- the body of the inner loop; both loops count from 1, so `right_index - 1` is exact
unfoldable pub cell : ℕ → List ℕ → ℕ → ℕ → List ℕ → ℕ
cell left_char previous right_index right_char current =
    let insertion = get_or current (right_index - 1) 0 + 1 in
    let deletion = get_or previous right_index 0 + 1 in
    let substitution =
      get_or previous (right_index - 1) 0 + (if left_char == right_char then 0 else 1) in
    min (min insertion deletion) substitution

-- the inner loop
unfoldable pub fill_row : ℕ → List ℕ → ℕ → Text → List ℕ → List ℕ
fill_row left_char previous right_index [] current = current
fill_row left_char previous right_index (right_char ∷ right) current =
    fill_row left_char previous (right_index + 1) right
      (current ++ cell left_char previous right_index right_char current ∷ [])

-- the outer loop
unfoldable pub fill_rows : ℕ → Text → Text → List ℕ → List ℕ
fill_rows left_index [] right previous = previous
fill_rows left_index (left_char ∷ left) right previous =
    fill_rows (left_index + 1) left right (fill_row left_char previous 1 right (left_index ∷ []))

unfoldable pub levenshtein_distance : Text → Text → ℕ
levenshtein_distance left right =
    if text_eq left right
    then 0
    else if length left == 0
    then length right
    else if length right == 0
    then length left
    else last_cell (fill_rows 1 left right (range (length right + 1)))
