-- ===== src/Intent/Pronunciation/Keyed.antt =====
-- brain/intent/catalog.py: the dictionary of candidates by their intents
use nubjuk_brain.Prelude.{
  ◌≡◌, sym, subst, inl, inr, true, false, [], ◌∷◌, Text, text_eq, text_eq_iff, All, Bool-cases,
  if-intro,
}
use nubjuk_brain.Prelude.Dict
use nubjuk_brain.Prelude.Dict.{Dict}
use nubjuk_brain.Intent.Pronunciation.{PronunciationCandidate}
use nubjuk_brain.Intent.Pronunciation.Ordered.{IsOther, AreDistinct, text_eq_sym}

-- A dictionary of candidates by their intents, each key once.
abbrev pub IsKeyed : Dict PronunciationCandidate → Type 0
IsKeyed [] = Unit
IsKeyed ((k, a) ∷ d) =
    (text_eq a.intent k ≡ true)
    × All (λ (e : Text × PronunciationCandidate). text_eq e.0 k ≡ false) d
    × IsKeyed d

other-put :
    (t k : Text) (a : PronunciationCandidate) (d : Dict PronunciationCandidate)
    → text_eq k t ≡ false
    → All (λ (e : Text × PronunciationCandidate). text_eq e.0 t ≡ false) d
    → All (λ (e : Text × PronunciationCandidate). text_eq e.0 t ≡ false) (Dict.put k a d)
unfolding Dict.put
other-put t k a [] o h = (o, tt)
other-put t k a ((j, b) ∷ d) o h =
    if-intro (All (λ (e : Text × PronunciationCandidate). text_eq e.0 t ≡ false)) (text_eq j k)
      (λ _. (o, h.1)) (λ _. (h.0, other-put t k a d o h.1))

pub put-IsKeyed :
    (k : Text) (a : PronunciationCandidate) (d : Dict PronunciationCandidate)
    → text_eq a.intent k ≡ true
    → IsKeyed d
    → IsKeyed (Dict.put k a d)
unfolding Dict.put
put-IsKeyed k a [] e h = (e, tt, tt)
put-IsKeyed k a ((j, b) ∷ d) e h = elim (Bool-cases (text_eq j k)) [
  | inl f ↦
      let same = (text_eq_iff j k).0 f in
      rw (f, IsKeyed)
        (
          e,
          subst (λ t. All (λ (x : Text × PronunciationCandidate). text_eq x.0 t ≡ false) d) same
              h.1,
          h.2,
        )
  | inr f ↦
      rw (f, IsKeyed) (h.0, other-put j k a d (text_eq_sym j k f) h.1, put-IsKeyed k a d e h.2)
]

values-IsOther :
    (t : Text) (d : Dict PronunciationCandidate)
    → IsKeyed d
    → All (λ (e : Text × PronunciationCandidate). text_eq e.0 t ≡ false) d
    → All (IsOther t) (Dict.values d)
unfolding Dict.values
values-IsOther t [] h o = tt
values-IsOther t ((k, a) ∷ d) h o =
    (rw ((text_eq_iff a.intent k).0 h.0) o.0, values-IsOther t d h.2 o.1)

pub values-AreDistinct : (d : Dict PronunciationCandidate) → IsKeyed d → AreDistinct (Dict.values d)
unfolding Dict.values
values-AreDistinct [] h = tt
values-AreDistinct ((k, a) ∷ d) h = (
  subst (λ t. All (IsOther t) (Dict.values d)) (sym ((text_eq_iff a.intent k).0 h.0))
      (values-IsOther k d h.2 h.1),
  values-AreDistinct d h.2,
)

pub values-All :
    (Q : PronunciationCandidate → Type 0) (d : Dict PronunciationCandidate)
    → All (λ (e : Text × PronunciationCandidate). Q e.1) d
    → All Q (Dict.values d)
unfolding Dict.values
values-All Q [] h = tt
values-All Q ((k, a) ∷ d) h = (h.0, values-All Q d h.1)

pub put-All :
    (Q : PronunciationCandidate → Type 0) (k : Text) (a : PronunciationCandidate)
    (d : Dict PronunciationCandidate)
    → Q a
    → All (λ (e : Text × PronunciationCandidate). Q e.1) d
    → All (λ (e : Text × PronunciationCandidate). Q e.1) (Dict.put k a d)
unfolding Dict.put
put-All Q k a [] q h = (q, tt)
put-All Q k a ((j, b) ∷ d) q h =
    if-intro (All (λ (e : Text × PronunciationCandidate). Q e.1)) (text_eq j k) (λ _. (q, h.1))
      (λ _. (h.0, put-All Q k a d q h.1))
