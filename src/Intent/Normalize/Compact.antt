-- ===== src/Intent/Normalize/Compact.antt =====
-- brain/intent/catalog.py: the compact form of a text, described without its stages
use nubjuk_brain.Prelude.{
  ℕ, ◌≡◌, refl, ◌∙◌, Bool, false, not, ◌&&◌, ◌||◌, [], ◌∷◌, ◌++◌, Text, ◌==◌, filter_by,
  filter_by-All, filter_by_of_All, All, arith, if-intro,
}
use nubjuk_brain.Intent.Hangul.{is_hangul_syllable}
use nubjuk_brain.Intent.Normalize.{
  Unicode, UnicodeLaws, casefold, without_punctuation, collapse, lstrip, push_unless_blank, rstrip,
  normalize_text, compact,
}

module _ (u : Unicode) (laws : UnicodeLaws u) where
  -- a word character or a Hangul syllable, and no white space
  pub solid : ℕ → Bool
  solid c = not (u.is_space c) && (u.is_word c || is_hangul_syllable c)

  -- no white space
  full : ℕ → Bool
  full c = not (u.is_space c)

  -- `filter full` does not see what the stages behind the folding do to white space
  full-lstrip : (t : Text) → filter_by full (lstrip u t) ≡ filter_by full t
  unfolding lstrip filter_by full
  full-lstrip [] = refl
  full-lstrip (c ∷ t) = ground (arith, full-lstrip t)

  full-push : (c : ℕ) (t : Text) → filter_by full (push_unless_blank u c t) ≡ filter_by full (c ∷ t)
  unfolding push_unless_blank filter_by full
  full-push c [] = ground arith
  full-push c (d ∷ t) = refl

  full-rstrip : (t : Text) → filter_by full (rstrip u t) ≡ filter_by full t
  unfolding rstrip filter_by
  full-rstrip [] = refl
  full-rstrip (c ∷ t) = full-push c (rstrip u t) ∙ ground (arith, full-rstrip t)

  full-collapse : (b : Bool) (t : Text) → filter_by full (collapse u b t) ≡ filter_by full t
  unfolding collapse filter_by full
  full-collapse b [] = refl
  full-collapse b (c ∷ t) = ground (arith, full-collapse (u.is_space c) t, laws.blank)

  full-without_punctuation :
      (t : Text) → filter_by full (without_punctuation u t) ≡ filter_by solid t
  unfolding without_punctuation filter_by full solid
  full-without_punctuation [] = refl
  full-without_punctuation (c ∷ t) = ground (arith, full-without_punctuation t, laws.blank)

  -- the only white space of a normalized text is the blank
  OnlyBlank : Text → Type 0
  OnlyBlank t = All (λ c. (u.is_space c && not (c == 32)) ≡ false) t

  OnlyBlank-collapse : (b : Bool) (t : Text) → OnlyBlank (collapse u b t)
  unfolding OnlyBlank collapse
  OnlyBlank-collapse b [] = tt
  OnlyBlank-collapse b (c ∷ t) =
      let rest = OnlyBlank-collapse (u.is_space c) t in
      if-intro OnlyBlank (u.is_space c)
        (λ e. if-intro OnlyBlank b (λ _. rest) (λ _. (rw laws.blank, rest))) (λ e. (rw e, rest))

  OnlyBlank-lstrip : (t : Text) → OnlyBlank t → OnlyBlank (lstrip u t)
  unfolding OnlyBlank lstrip
  OnlyBlank-lstrip [] h = tt
  OnlyBlank-lstrip (c ∷ t) h =
      if-intro OnlyBlank (u.is_space c) (λ _. OnlyBlank-lstrip t h.1) (λ _. h)

  OnlyBlank-push : (c : ℕ) (t : Text) → OnlyBlank (c ∷ t) → OnlyBlank (push_unless_blank u c t)
  unfolding OnlyBlank push_unless_blank
  OnlyBlank-push c [] h = if-intro OnlyBlank (u.is_space c) (λ _. tt) (λ _. h)
  OnlyBlank-push c (d ∷ t) h = h

  OnlyBlank-rstrip : (t : Text) → OnlyBlank t → OnlyBlank (rstrip u t)
  unfolding OnlyBlank rstrip
  OnlyBlank-rstrip [] h = tt
  OnlyBlank-rstrip (c ∷ t) h = OnlyBlank-push c (rstrip u t) (h.0, OnlyBlank-rstrip t h.1)

  filter_blank : (t : Text) → OnlyBlank t → filter_by (λ c. not (c == 32)) t ≡ filter_by full t
  unfolding OnlyBlank filter_by full
  filter_blank [] h = refl
  filter_blank (c ∷ t) h = ground (arith, filter_blank t h.1)

  -- The compact form of a text is its case-folded text without all characters but the word
  -- characters and Hangul syllables that are no white space, given that the blank is white space.
  pub compact-filter : (t : Text) → compact u t ≡ filter_by solid (casefold u t)
  unfolding compact normalize_text
  compact-filter t =
      let spaced = collapse u false (without_punctuation u (casefold u t)) in
      filter_blank (rstrip u (lstrip u spaced)) (
        OnlyBlank-rstrip (lstrip u spaced) (
          OnlyBlank-lstrip spaced
            (OnlyBlank-collapse false (without_punctuation u (casefold u t)))))
      ∙ full-rstrip (lstrip u spaced)
      ∙ full-lstrip spaced
      ∙ full-collapse false (without_punctuation u (casefold u t))
      ∙ full-without_punctuation (casefold u t)

  -- A text that only holds what folding yields is folded already.
  IsFolded : Text → Type 0
  IsFolded t = All (λ d. u.casefold d ≡ d ∷ []) t

  IsFolded-append : (s t : Text) → IsFolded s → IsFolded t → IsFolded (s ++ t)
  unfolding IsFolded
  IsFolded-append [] t hs ht = ht
  IsFolded-append (c ∷ s) t hs ht = (hs.0, IsFolded-append s t hs.1 ht)

  IsFolded-casefold : (t : Text) → IsFolded (casefold u t)
  unfolding casefold
  IsFolded-casefold [] = unfold IsFolded in tt
  IsFolded-casefold (c ∷ t) =
      IsFolded-append (u.casefold c) (casefold u t) (unfold IsFolded in laws.folded c)
        (IsFolded-casefold t)

  IsFolded-filter_by : (p : ℕ → Bool) (t : Text) → IsFolded t → IsFolded (filter_by p t)
  unfolding IsFolded filter_by
  IsFolded-filter_by p [] h = tt
  IsFolded-filter_by p (c ∷ t) h =
      if-intro IsFolded (p c) (λ _. (h.0, IsFolded-filter_by p t h.1))
        (λ _. IsFolded-filter_by p t h.1)

  casefold_of_IsFolded : (t : Text) → IsFolded t → casefold u t ≡ t
  unfolding casefold IsFolded
  casefold_of_IsFolded [] h = refl
  casefold_of_IsFolded (c ∷ t) h = rw (h.0, casefold_of_IsFolded t h.1)

  -- Compacting twice is compacting once, for tables as in `UnicodeLaws`.
  pub compact_idem : (t : Text) → compact u (compact u t) ≡ compact u t
  compact_idem t =
      let once = compact-filter t in
      let fixed = IsFolded-filter_by solid (casefold u t) (IsFolded-casefold t) in
      compact-filter (compact u t)
      ∙ rw (once, casefold_of_IsFolded (filter_by solid (casefold u t)) fixed)
          (filter_by_of_All solid (filter_by solid (casefold u t))
            (filter_by-All solid (casefold u t)))
