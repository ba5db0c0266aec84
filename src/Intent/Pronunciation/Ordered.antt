-- ===== src/Intent/Pronunciation/Ordered.antt =====
-- brain/intent/catalog.py: the sorting of candidates
use nubjuk_brain.Prelude.{
  ℕ, zero, suc, ◌≡◌, refl, inl, inr, true, false, List, [], ◌∷◌, Text, text_eq, take, All, arith,
  Bool-cases, if-intro,
}
use nubjuk_brain.Intent.Sorting.{insert_desc, sort_desc}
use nubjuk_brain.Intent.Pronunciation.{PronunciationCandidate, outranks}

-- No candidate is outranked by one behind it, and no two have the same intent.
abbrev pub IsRanked : List PronunciationCandidate → Type 0
IsRanked [] = Unit
IsRanked (a ∷ rest) =
    All (λ (b : PronunciationCandidate). outranks b a ≡ false) rest
    × All (λ (b : PronunciationCandidate). text_eq b.intent a.intent ≡ false) rest
    × IsRanked rest

module _ (Q : PronunciationCandidate → Type 0) where
  All-insert :
      (a : PronunciationCandidate) (xs : List PronunciationCandidate)
      → Q a
      → All Q xs
      → All Q (insert_desc outranks a xs)
  unfolding insert_desc
  All-insert a [] q h = (q, tt)
  All-insert a (b ∷ xs) q h =
      if-intro (All Q) (outranks b a) (λ _. (h.0, All-insert a xs q h.1)) (λ _. (q, h))

  pub All-sort : (xs : List PronunciationCandidate) → All Q xs → All Q (sort_desc outranks xs)
  unfolding sort_desc
  All-sort [] h = tt
  All-sort (a ∷ xs) h = All-insert a (sort_desc outranks xs) h.0 (All-sort xs h.1)

  pub All-take : (n : ℕ) (xs : List PronunciationCandidate) → All Q xs → All Q (take n xs)
  All-take zero xs h = tt
  All-take (suc n) [] h = tt
  All-take (suc n) (x ∷ xs) h = (h.0, All-take n xs h.1)

abbrev pub IsOther : Text → PronunciationCandidate → Type 0
IsOther t b = text_eq b.intent t ≡ false

-- all of different intents
abbrev pub AreDistinct : List PronunciationCandidate → Type 0
AreDistinct [] = Unit
AreDistinct (a ∷ rest) = All (IsOther a.intent) rest × AreDistinct rest

outranks_trans :
    (a b c : PronunciationCandidate)
    → outranks c b ≡ false
    → outranks b a ≡ false
    → outranks c a ≡ false
unfolding outranks
outranks_trans a b c h k = ground arith

outranks_asym : (a b : PronunciationCandidate) → outranks b a ≡ true → outranks a b ≡ false
unfolding outranks
outranks_asym a b h = ground arith

All-weaken :
    {P Q : PronunciationCandidate → Type 0} (xs : List PronunciationCandidate)
    → ((x : PronunciationCandidate) → P x → Q x)
    → All P xs
    → All Q xs
All-weaken [] f h = tt
All-weaken (x ∷ xs) f h = (f x h.0, All-weaken xs f h.1)

pub text_eq_sym : (s t : Text) → text_eq s t ≡ false → text_eq t s ≡ false
unfolding text_eq
text_eq_sym [] [] h = h
text_eq_sym [] (d ∷ t) h = refl
text_eq_sym (c ∷ s) [] h = refl
text_eq_sym (c ∷ s) (d ∷ t) h = ground (arith, text_eq_sym s t)

insert-IsRanked :
    (a : PronunciationCandidate) (xs : List PronunciationCandidate)
    → All (IsOther a.intent) xs
    → IsRanked xs
    → IsRanked (insert_desc outranks a xs)
unfolding insert_desc
insert-IsRanked a [] o h = (tt, tt, tt)
insert-IsRanked a (b ∷ xs) o h = elim (Bool-cases (outranks b a)) [
  | inl e ↦
      rw (e, IsRanked)
        (
          All-insert (λ (c : PronunciationCandidate). outranks c b ≡ false) a xs
              (outranks_asym a b e) h.0,
          All-insert (IsOther b.intent) a xs (text_eq_sym b.intent a.intent o.0) h.1,
          insert-IsRanked a xs o.1 h.2,
        )
  | inr e ↦ rw (e, IsRanked) ((e, All-weaken xs (λ c k. outranks_trans a b c k e) h.0), o, h)
]

pub sort-IsRanked :
    (xs : List PronunciationCandidate) → AreDistinct xs → IsRanked (sort_desc outranks xs)
unfolding sort_desc
sort-IsRanked [] d = tt
sort-IsRanked (a ∷ xs) d =
    insert-IsRanked a (sort_desc outranks xs) (All-sort (IsOther a.intent) xs d.0)
      (sort-IsRanked xs d.1)

pub take-IsRanked : (n : ℕ) (xs : List PronunciationCandidate) → IsRanked xs → IsRanked (take n xs)
take-IsRanked zero xs h = tt
take-IsRanked (suc n) [] h = tt
take-IsRanked (suc n) (x ∷ xs) h =
    (All-take _ n xs h.0, All-take _ n xs h.1, take-IsRanked n xs h.2)
