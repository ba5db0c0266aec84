-- ===== src/Intent/Catalog/Highest.antt =====
-- brain/intent/catalog.py: which alias the phonetic stage of `match` chooses
use nubjuk_brain.Prelude.{
  ℕ, ◌≤◌, ◌≡◌, refl, sym, subst, inl, inr, true, false, not, ◌||◌, none, some, List, [], ◌∷◌, Text,
  ltb, Elem, arith, if-intro, if◌then◌else◌,
}
use nubjuk_brain.Pipeline.{Float}
use nubjuk_brain.Intent.Hangul.{hangul_syllable_count}
use nubjuk_brain.Intent.Normalize.{Unicode}
use nubjuk_brain.Intent.Phonetic.{Floats, phonetic_similarity}
use nubjuk_brain.Intent.Recipe.{IntentRecipe}
use nubjuk_brain.Intent.Catalog.{PhoneticAlias, Best, beats, best_phonetic}

module _ (u : Unicode) (fl : Floats) (text : Text) where
  abbrev pub score_of : PhoneticAlias → Float
  score_of a = phonetic_similarity fl a.alias_compact text

  abbrev pub count_of : PhoneticAlias → ℕ
  count_of a = hangul_syllable_count a.alias_compact

  -- The alias scores below the floor, or does not beat the best.
  abbrev pub IsPassed : Best → PhoneticAlias → Type 0
  IsPassed best a =
      (ltb (score_of a) fl.match_floor || not (beats (score_of a) (count_of a) best)) ≡ true

  -- the best candidate after one more alias
  abbrev next : PhoneticAlias → Best → Best
  next a best =
      if ltb (score_of a) fl.match_floor
      then best
      else if beats (score_of a) (count_of a) best
      then some (score_of a, count_of a, a.recipe)
      else best

  beats_after :
      (s t : Float) (n k : ℕ) (r : IntentRecipe) (best : Best)
      → beats s n best ≡ true
      → (ltb t fl.match_floor || not (beats t k best)) ≡ true
      → (ltb t fl.match_floor || not (beats t k (some (s, n, r)))) ≡ true
  unfolding beats
  beats_after s t n k r none b p = ground arith
  beats_after s t n k r (some (x, y, z)) b p = ground arith

  next-IsPassed : (a b : PhoneticAlias) (best : Best) → IsPassed best a → IsPassed (next b best) a
  next-IsPassed a b best p =
      if-intro (λ (x : Best). IsPassed x a) (ltb (score_of b) fl.match_floor) (λ _. p)
        (λ _.
          if-intro (λ (x : Best). IsPassed x a) (beats (score_of b) (count_of b) best)
            (λ e. beats_after (score_of b) (score_of a) (count_of b) (count_of a) b.recipe best e p)
            (λ _. p))

  beats_self : (s : Float) (n : ℕ) (r : IntentRecipe) → beats s n (some (s, n, r)) ≡ false
  unfolding beats
  beats_self s n r = ground arith

  next_self : (a : PhoneticAlias) (best : Best) → IsPassed (next a best) a
  next_self a best =
      if-intro (λ (x : Best). IsPassed x a) (ltb (score_of a) fl.match_floor) (λ e. ground arith)
        (λ _.
          if-intro (λ (x : Best). IsPassed x a) (beats (score_of a) (count_of a) best)
            (λ e. ground (arith, beats_self (score_of a) (count_of a) a.recipe))
            (λ e. ground arith))

  best-IsPassed :
      (aliases : List PhoneticAlias) (best : Best) (a : PhoneticAlias)
      → IsPassed best a
      → IsPassed (best_phonetic u fl aliases text best) a
  unfolding best_phonetic
  best-IsPassed [] best a p = p
  best-IsPassed (b ∷ rest) best a p = best-IsPassed rest (next b best) a (next-IsPassed a b best p)

  best_covers :
      (aliases : List PhoneticAlias) (best : Best) (a : PhoneticAlias)
      → Elem a aliases
      → IsPassed (best_phonetic u fl aliases text best) a
  unfolding best_phonetic
  best_covers [] best a m = absurd m
  best_covers (b ∷ rest) best a (inl e) =
      subst (λ x. IsPassed (best_phonetic u fl rest text (next b best)) x) (sym e)
        (best-IsPassed rest (next b best) b (next_self b best))
  best_covers (b ∷ rest) best a (inr m) = best_covers rest (next b best) a m

  -- a best candidate that is one of the aliases, at the floor or above it
  abbrev pub IsAttained : List PhoneticAlias → Best → Type 0
  IsAttained aliases none = Unit
  IsAttained aliases (some (s, n, r)) =
      (a : PhoneticAlias) × Elem a aliases
      × (s ≡ score_of a)
      × (n ≡ count_of a)
      × (r ≡ a.recipe)
      × (fl.match_floor ≤ s)

  best-IsAttained :
      (all aliases : List PhoneticAlias) (best : Best)
      → ((a : PhoneticAlias) → Elem a aliases → Elem a all)
      → IsAttained all best
      → IsAttained all (best_phonetic u fl aliases text best)
  unfolding best_phonetic
  best-IsAttained all [] best m h = h
  best-IsAttained all (b ∷ rest) best m h =
      best-IsAttained all rest (next b best) (λ a k. m a (inr k))
        (if-intro (IsAttained all) (ltb (score_of b) fl.match_floor) (λ _. h)
          (λ low.
            if-intro (IsAttained all) (beats (score_of b) (count_of b) best)
              (λ _. (b, m b (inl refl), refl, refl, refl, ground arith)) (λ _. h)))

  -- The phonetic stage chooses none, or the score, the count of syllables and the recipe of one of the
  -- aliases, its score not below the floor; and any one of the aliases scores below the floor, or does
  -- not beat the choice in score and then in syllables.
  pub best_phonetic-IsAttained :
      (aliases : List PhoneticAlias) (a : PhoneticAlias)
      → Elem a aliases
      → IsAttained aliases (best_phonetic u fl aliases text none)
        × IsPassed (best_phonetic u fl aliases text none) a
  best_phonetic-IsAttained aliases a m =
      (best-IsAttained aliases aliases none (λ x k. k) tt, best_covers aliases none a m)
