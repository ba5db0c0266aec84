-- ===== src/Intent/Normalize.antt =====
-- brain/intent/catalog.py: `normalize_text`. Unicode's tables are a parameter: `str.casefold`, and
-- the classes `\w` and `\s` of `re`.
pub mod Compact
use nubjuk_brain.Prelude.{
  ℕ, ◌≡◌, Bool, true, false, not, ◌&&◌, ◌||◌, List, [], ◌∷◌, ◌++◌, map, Text, ◌==◌, if◌then◌else◌,
  filter_by, All,
}
use nubjuk_brain.Intent.Hangul.{is_hangul_syllable}

pub record Unicode : Type 0 where
  pub casefold : ℕ → Text
  pub is_word : ℕ → Bool
  pub is_space : ℕ → Bool

-- What is used of them: the blank is white space, and `str.casefold` folds what it yields no
-- further.
pub record UnicodeLaws (u : Unicode) : Type 0 where
  pub blank : u.is_space 32 ≡ true
  pub folded : (c : ℕ) → All (λ d. u.casefold d ≡ d ∷ []) (u.casefold c)

module _ (u : Unicode) where
  -- `text.casefold()`
  unfoldable pub casefold : Text → Text
  casefold [] = []
  casefold (c ∷ text) = u.casefold c ++ casefold text

  -- `re.sub(r"[^\w\s가-힣]", " ", lowered)`
  unfoldable pub without_punctuation : Text → Text
  without_punctuation =
      map (λ c. if u.is_word c || u.is_space c || is_hangul_syllable c then c else 32)

  -- `re.sub(r"\s+", " ", text)`; the flag says that the character before was white space
  unfoldable pub collapse : Bool → Text → Text
  collapse after_space [] = []
  collapse after_space (c ∷ text) =
      let rest = collapse (u.is_space c) text in
      if u.is_space c then (if after_space then rest else 32 ∷ rest) else c ∷ rest

  unfoldable pub lstrip : Text → Text
  lstrip [] = []
  lstrip (c ∷ text) = let rest = lstrip text in if u.is_space c then rest else c ∷ text

  unfoldable pub push_unless_blank : ℕ → Text → Text
  push_unless_blank c [] = if u.is_space c then [] else c ∷ []
  push_unless_blank c (d ∷ text) = c ∷ d ∷ text

  unfoldable pub rstrip : Text → Text
  rstrip [] = []
  rstrip (c ∷ text) = push_unless_blank c (rstrip text)

  unfoldable pub normalize_text : Text → Text
  normalize_text text = rstrip (lstrip (collapse false (without_punctuation (casefold text))))

  -- `normalize_text(text).replace(" ", "")`
  unfoldable pub compact : Text → Text
  compact text = filter_by (λ c. not (c == 32)) (normalize_text text)
