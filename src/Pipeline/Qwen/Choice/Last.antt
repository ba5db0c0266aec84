-- ===== src/Pipeline/Qwen/Choice/Last.antt =====
-- brain/pipeline/qwen_slm.py: which intent `parse_intent_from_slm_output` chooses
use nubjuk_brain.Prelude.{
  ℕ, ◌+◌, ◌≤◌, ◌<◌, ◌≡◌, refl, ap, ◌⊎◌, inl, inr, List, [], ◌∷◌, ◌++◌, Text, length, ltb,
  if◌then◌else◌, arith, All, Elem, if-intro,
}
use nubjuk_brain.Intent.Catalog.{unknown}
use nubjuk_brain.Pipeline.Qwen.Choice.{matches_of, latest, chosen, parse_intent_from_slm_output}
use nubjuk_brain.Pipeline.Qwen.Choice.Places.{
  OccursAt, IsMatch, matches_of-IsMatch, matches_of-Covers,
}

-- The choice is one of the matches, and none stands behind it.
latest_kept :
    (Q : ℕ × Text → Type 0) (best : ℕ × Text) (ms : List (ℕ × Text))
    → Q best
    → All Q ms
    → Q (latest best ms)
unfolding latest
latest_kept Q best [] b h = b
latest_kept Q best (m ∷ ms) b h =
    latest_kept Q (if ltb best.0 m.0 then m else best) ms
      (if-intro Q (ltb best.0 m.0) (λ _. h.0) (λ _. b)) h.1

latest_grows : (best : ℕ × Text) (ms : List (ℕ × Text)) → best.0 ≤ (latest best ms).0
unfolding latest
latest_grows best [] = omega arith
latest_grows best (m ∷ ms) = ground (arith, latest_grows (if ltb best.0 m.0 then m else best) ms)

latest_bounds : (m best : ℕ × Text) (ms : List (ℕ × Text)) → Elem m ms → m.0 ≤ (latest best ms).0
unfolding latest
latest_bounds m best [] h = absurd h
latest_bounds m best (x ∷ ms) (inl e) =
    let here : m.0 ≡ x.0 = ap (λ y. y.0) e in
    ground (arith, latest_grows (if ltb best.0 x.0 then x else best) ms)
latest_bounds m best (x ∷ ms) (inr h) = latest_bounds m (if ltb best.0 x.0 then x else best) ms h

All-Elem-refl : (vs ws : List Text) → ((v : Text) → Elem v vs → Elem v ws) → All (λ v. Elem v ws) vs
All-Elem-refl [] ws h = tt
All-Elem-refl (v ∷ vs) ws h = (h v (inl refl), All-Elem-refl vs ws (λ w m. h w (inr m)))

module _ (output : Text) (valid_intents : List Text) where
  abbrev valid : List Text
  valid = valid_intents ++ unknown ∷ []

  chosen_match :
      (ms : List (ℕ × Text))
      → All (IsMatch output valid) ms
      → (chosen ms ≡ unknown) ⊎ (Elem (chosen ms) valid × ((i : ℕ) × OccursAt output (chosen ms) i))
  unfolding chosen
  chosen_match [] h = inl refl
  chosen_match (m ∷ ms) h =
      let (e, o) = latest_kept (IsMatch output valid) m ms h.0 h.1 in inr (e, ((latest m ms).0, o))

  -- The choice is `unknown`, or one of the valid intents, and then it stands somewhere in the output.
  pub parse_intent_from_slm_output-OccursAt :
      (parse_intent_from_slm_output output valid_intents ≡ unknown)
      ⊎ (Elem (parse_intent_from_slm_output output valid_intents) (valid_intents ++ unknown ∷ [])
          × ((i : ℕ) × OccursAt output (parse_intent_from_slm_output output valid_intents) i))
  unfolding parse_intent_from_slm_output
  parse_intent_from_slm_output-OccursAt =
      chosen_match (matches_of valid output)
        (matches_of-IsMatch output valid valid (All-Elem-refl valid valid (λ v m. m)))

  chosen_last :
      (ms : List (ℕ × Text)) (m : ℕ × Text)
      → All (IsMatch output valid) ms
      → Elem m ms
      → (i : ℕ) × OccursAt output (chosen ms) i × (m.0 ≤ i)
  unfolding chosen
  chosen_last [] m h e = absurd e
  chosen_last (x ∷ ms) m h (inl e) =
      let (_, o) = latest_kept (IsMatch output valid) x ms h.0 h.1 in
      let same : m.0 ≡ x.0 = ap (λ y. y.0) e in
      ((latest x ms).0, o, omega (arith, latest_grows x ms))
  chosen_last (x ∷ ms) m h (inr e) =
      let (_, o) = latest_kept (IsMatch output valid) x ms h.0 h.1 in
      ((latest x ms).0, o, latest_bounds m x ms e)

  -- Where a valid intent that is not empty, or `unknown`, stands in the output, the choice stands at a
  -- place that is not before it, but for the length of that intent less one, by which matches of it may
  -- overlap.
  pub parse_intent_from_slm_output_last :
      (v : Text) (j : ℕ)
      → Elem v (valid_intents ++ unknown ∷ [])
      → 0 < length v
      → OccursAt output v j
      → (i : ℕ) × OccursAt output (parse_intent_from_slm_output output valid_intents) i
        × (j < i + length v)
  unfolding parse_intent_from_slm_output
  parse_intent_from_slm_output_last v j m p h =
      let (x, e, b) = matches_of-Covers output valid v j m p h in
      let (i, o, l) =
        chosen_last (matches_of valid output) x
          (matches_of-IsMatch output valid valid (All-Elem-refl valid valid (λ v m. m))) e in
      (i, o, omega arith)
