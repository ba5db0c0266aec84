-- ===== src/Intent/Sorting.antt =====
-- brain/intent/catalog.py: `list.sort(key=…, reverse=True)`, descending by a test and stable
use nubjuk_brain.Prelude.{Bool, List, [], ◌∷◌, if◌then◌else◌}

module _ {A : Type 0} (before : A → A → Bool) where
  -- `before y x` says that the key of `y` is greater than that of `x`
  unfoldable pub insert_desc : A → List A → List A
  insert_desc x [] = x ∷ []
  insert_desc x (y ∷ ys) =
      let rest = insert_desc x ys in if before y x then y ∷ rest else x ∷ y ∷ ys

  unfoldable pub sort_desc : List A → List A
  sort_desc [] = []
  sort_desc (x ∷ xs) = insert_desc x (sort_desc xs)
