-- ===== src/Pipeline/Qwen/Output.antt =====
-- brain/pipeline/qwen_slm.py: `extract_slm_completion` and `compact_slm_output`
pub mod Line
use nubjuk_brain.Prelude.{
  ℕ, zero, suc, ◌+◌, Bool, true, false, ◌&&◌, ◌||◌, not, Option, none, some, List, [], ◌∷◌, ◌++◌,
  Text, codes, length, take, drop, leb, ltb, ◌==◌, filter_by, if◌then◌else◌,
}
use nubjuk_brain.Intent.Normalize.{Unicode, collapse, lstrip, rstrip}
use nubjuk_brain.Intent.Catalog.{starts_with}

-- the characters of `[\x00-\x08\x0b-\x1f\x7f]`
unfoldable pub is_control : ℕ → Bool
is_control c = leb c 0x08 || (leb 0x0b c && leb c 0x1f) || c == 0x7f

-- where `str.splitlines` ends a line; it takes "\r\n" for one end, but no "\r" is left when it is called
unfoldable pub is_break : ℕ → Bool
is_break c =
    (leb 0x0a c && leb c 0x0d)
    || (leb 0x1c c && leb c 0x1e)
    || c == 0x85
    || c == 0x2028
    || c == 0x2029

unfoldable pub push_char : ℕ → List Text → List Text
push_char c [] = (c ∷ []) ∷ []
push_char c (line ∷ lines) = (c ∷ line) ∷ lines

unfoldable pub split_lines : Text → List Text
split_lines [] = []
split_lines (c ∷ text) =
    let rest = split_lines text in if is_break c then [] ∷ rest else push_char c rest

-- the text behind the last occurrence of `sub`, if there is one
unfoldable pub after_last : Text → Text → Option Text
after_last sub [] = none
after_last sub (c ∷ text) = elim (after_last sub text) [
  | some rest ↦ some rest
  | none ↦ if starts_with sub (c ∷ text) then some (drop (length sub) (c ∷ text)) else none
]

-- `text.rsplit("Intent id:", maxsplit=1)[-1]`, if the mark is in the text
unfoldable pub after_mark : Text → Text
after_mark text = elim (after_last (codes "Intent id:") text) [ some rest ↦ rest | none ↦ text ]

unfoldable pub last_or : Text → List Text → Text
last_or text [] = text
last_or text (line ∷ lines) = last_or line lines

module _ (u : Unicode) where
  -- `text.strip()`
  unfoldable pub strip : Text → Text
  strip text = rstrip u (lstrip u text)

  -- a match of `\s*Prompt:`
  unfoldable pub is_prompt : Text → Bool
  is_prompt [] = false
  is_prompt (c ∷ text) =
      let rest = is_prompt text in
      if starts_with (codes "Prompt:") (c ∷ text) then true else u.is_space c && rest

  -- a match of `\[\s*Prompt:|Exiting\.\.\.`
  unfoldable pub is_end : Text → Bool
  is_end [] = false
  is_end (c ∷ text) = (c == 0x5b && is_prompt text) || starts_with (codes "Exiting...") (c ∷ text)

  -- `re.split(…, output, maxsplit=1)[0]`
  unfoldable pub cut_end : Text → Text
  cut_end [] = []
  cut_end (c ∷ text) = let rest = cut_end text in if is_end (c ∷ text) then [] else c ∷ rest

  -- `[line.strip() for line in … if line.strip()]`
  unfoldable pub stripped_lines : List Text → List Text
  stripped_lines [] = []
  stripped_lines (line ∷ lines) =
      let rest = stripped_lines lines in
      if length (strip line) == 0 then rest else strip line ∷ rest

  unfoldable pub extract_slm_completion : Text → Text
  extract_slm_completion output =
      let text = after_mark (filter_by (λ c. not (is_control c)) (cut_end output)) in
      last_or (strip text) (stripped_lines (split_lines text))

  -- `re.sub(r"\s+", " ", output).strip()`, cut to the limit
  unfoldable pub compact_slm_output : Text → ℕ → Text
  compact_slm_output output limit =
      let text = strip (collapse u false output) in
      if leb (length text) limit then text else take limit text ++ codes "..."
