-- ===== src/Pipeline/Qwen/Choice/Places.antt =====
-- brain/pipeline/qwen_slm.py: the places of the intents that the loop finds
use nubjuk_brain.Prelude.{
  ℕ, zero, suc, ◌+◌, ◌-◌, ◌≤◌, ◌<◌, ◌≡◌, refl, subst, inl, inr, true, Option, none, some, List, [],
  ◌∷◌, ◌++◌, Text, length, drop, drop-drop, arith, All, Elem, Bool-cases, Option-cases,
}
use native.Mathlib.Decide.{dec_lt}
use nubjuk_brain.Intent.Catalog.{starts_with}
use nubjuk_brain.Pipeline.Qwen.Choice.{find_at, find, find_all, matches_of}

-- The intent stands in the output at place `j`.
abbrev pub OccursAt : Text → Text → ℕ → Type 0
OccursAt output intent j = starts_with intent (drop j output) ≡ true

-- An intent that is not empty stands inside the output.
OccursAt-length :
    (output intent : Text) (j : ℕ)
    → 0 < length intent
    → OccursAt output intent j
    → j < length output
unfolding starts_with
OccursAt-length output [] j p h = absurd (omega arith)
OccursAt-length [] (c ∷ intent) zero p h = absurd (ground arith)
OccursAt-length [] (c ∷ intent) (suc j) p h = absurd (ground arith)
OccursAt-length (d ∷ output) (c ∷ intent) zero p h = omega arith
OccursAt-length (d ∷ output) (c ∷ intent) (suc j) p h =
    omega (arith, OccursAt-length output (c ∷ intent) j p h)

-- a place that `find_at` returns, counted from `i`
abbrev IsPlace : Text → Text → ℕ → Option ℕ → Type 0
IsPlace sub text i none = Unit
IsPlace sub text i (some r) = (i ≤ r) × OccursAt text sub (r - i)

find_at-IsPlace : (sub text : Text) (i : ℕ) → IsPlace sub text i (find_at sub text i)
unfolding find_at
find_at-IsPlace sub [] i = elim (Bool-cases (starts_with sub [])) [
  | inl e ↦ rw e (let z : i - i ≡ 0 = omega arith in (omega arith, rw z e))
  | inr e ↦ rw e tt
]
find_at-IsPlace sub (c ∷ text) i = elim (Bool-cases (starts_with sub (c ∷ text))) [
  | inl e ↦ rw e (let z : i - i ≡ 0 = omega arith in (omega arith, rw z e))
  | inr e ↦ rw e (later (find_at sub text (i + 1)) (find_at-IsPlace sub text (i + 1)))
]
  where
    later : (o : Option ℕ) → IsPlace sub text (i + 1) o → IsPlace sub (c ∷ text) i o
    later none h = tt
    later (some r) (l, h) = let z : r - i ≡ suc (r - (i + 1)) = omega arith in (omega arith, rw z h)

find_at_first :
    (sub text : Text) (i k : ℕ)
    → OccursAt text sub k
    → (r : ℕ) × (find_at sub text i ≡ some r) × (r ≤ i + k)
unfolding find_at
find_at_first sub [] i zero h = rw h (i, refl, omega arith)
find_at_first sub [] i (suc k) h = rw h (i, refl, omega arith)
find_at_first sub (c ∷ text) i zero h = rw h (i, refl, omega arith)
find_at_first sub (c ∷ text) i (suc k) h =
    let (r, e, l) = find_at_first sub text (i + 1) k h in
    elim (Bool-cases (starts_with sub (c ∷ text))) [
      | inl f ↦ rw f (i, refl, omega arith)
      | inr f ↦ rw f (r, e, omega arith)
    ]

find_place :
    (output intent : Text) (start index : ℕ)
    → find intent output start ≡ some index
    → (start ≤ index) × OccursAt output intent index
unfolding find
find_place output intent start index e =
    let (l, h) : (start ≤ index) × OccursAt (drop start output) intent (index - start) =
      subst (IsPlace intent (drop start output) start) e
        (find_at-IsPlace intent (drop start output) start) in
    let z : start + (index - start) ≡ index = omega arith in
    (l, rw (← z, ← drop-drop start (index - start) output) h)

find_first :
    (output intent : Text) (start j : ℕ)
    → start ≤ j
    → OccursAt output intent j
    → (r : ℕ) × (find intent output start ≡ some r) × (r ≤ j)
unfolding find
find_first output intent start j l h =
    let z : start + (j - start) ≡ j = omega arith in
    let (r, e, k) =
      find_at_first intent (drop start output) start (j - start)
        (rw (drop-drop start (j - start) output, z) h) in
    (r, e, omega arith)

module _ (output : Text) where
  -- a match of one of the intents
  abbrev pub IsMatch : List Text → ℕ × Text → Type 0
  IsMatch intents m = Elem m.1 intents × OccursAt output m.1 m.0

  -- a match of the intent that ends behind place `j`
  abbrev pub Covers : Text → ℕ → List (ℕ × Text) → Type 0
  Covers intent j ms = (m : ℕ × Text) × Elem m ms × (j < m.0 + length intent)

  find_all-IsMatch :
      (fuel : ℕ) (intent : Text) (intents : List Text) (start : ℕ)
      → Elem intent intents
      → All (IsMatch intents) (find_all fuel intent output start)
  unfolding find_all
  find_all-IsMatch zero intent intents start h = tt
  find_all-IsMatch (suc fuel) intent intents start h =
      elim (Option-cases (find intent output start)) [
        | inl e ↦ rw (e, find_all, All) tt
        | inr (index, e) ↦
            rw (e, find_all, All)
              (
                (h, (find_place output intent start index e).1),
                find_all-IsMatch fuel intent intents (index + length intent) h,
              )
      ]

  find_all-Covers :
      (fuel : ℕ) (intent : Text) (start j : ℕ)
      → 0 < length intent
      → length output < start + fuel
      → start ≤ j
      → OccursAt output intent j
      → Covers intent j (find_all fuel intent output start)
  unfolding find_all
  find_all-Covers zero intent start j p f l h =
      absurd (omega (arith, OccursAt-length output intent j p h))
  find_all-Covers (suc fuel) intent start j p f l h =
      let (index, e, k) = find_first output intent start j l h in
      let ahead = (find_place output intent start index e).0 in
      elim (dec_lt j (index + length intent)) [
        | yes here ↦ rw (e, find_all) ((index, intent), inl refl, here)
        | no past ↦
            let (m, i, b) =
              find_all-Covers fuel intent (index + length intent) j p (omega arith) (omega arith)
                h in
            rw (e, find_all) (m, inr i, b)
      ]

  Elem-left : (m : ℕ × Text) (xs ys : List (ℕ × Text)) → Elem m xs → Elem m (xs ++ ys)
  Elem-left m [] ys h = absurd h
  Elem-left m (x ∷ xs) ys (inl e) = inl e
  Elem-left m (x ∷ xs) ys (inr h) = inr (Elem-left m xs ys h)

  Elem-right : (m : ℕ × Text) (xs ys : List (ℕ × Text)) → Elem m ys → Elem m (xs ++ ys)
  Elem-right m [] ys h = h
  Elem-right m (x ∷ xs) ys h = inr (Elem-right m xs ys h)

  All-both :
      (Q : ℕ × Text → Type 0) (xs ys : List (ℕ × Text)) → All Q xs → All Q ys → All Q (xs ++ ys)
  All-both Q [] ys h k = k
  All-both Q (x ∷ xs) ys h k = (h.0, All-both Q xs ys h.1 k)

  pub matches_of-IsMatch :
      (some_of intents : List Text)
      → All (λ v. Elem v intents) some_of
      → All (IsMatch intents) (matches_of some_of output)
  unfolding matches_of
  matches_of-IsMatch [] intents h = tt
  matches_of-IsMatch (v ∷ vs) intents h =
      All-both (IsMatch intents) _ _ (find_all-IsMatch (length output + 1) v intents 0 h.0)
        (matches_of-IsMatch vs intents h.1)

  pub matches_of-Covers :
      (vs : List Text) (v : Text) (j : ℕ)
      → Elem v vs
      → 0 < length v
      → OccursAt output v j
      → Covers v j (matches_of vs output)
  unfolding matches_of
  matches_of-Covers [] v j m p h = absurd m
  matches_of-Covers (w ∷ vs) v j (inl e) p h =
      let (x, i, b) = find_all-Covers (length output + 1) v 0 j p (omega arith) (omega arith) h in
      (x, Elem-left x _ _ (subst (λ t. Elem x (find_all (length output + 1) t output 0)) e i), b)
  matches_of-Covers (w ∷ vs) v j (inr m) p h =
      let (x, i, b) = matches_of-Covers vs v j m p h in (x, Elem-right x _ _ i, b)
