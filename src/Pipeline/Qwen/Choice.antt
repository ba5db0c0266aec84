-- ===== src/Pipeline/Qwen/Choice.antt =====
-- brain/pipeline/qwen_slm.py: `parse_intent_from_slm_output`
pub mod Places
pub mod Last
use nubjuk_brain.Prelude.{
  ℕ, zero, suc, ◌+◌, Option, none, some, List, [], ◌∷◌, ◌++◌, Text, length, drop, ltb,
  if◌then◌else◌,
}
use nubjuk_brain.Intent.Catalog.{unknown, starts_with}

-- `text.find(sub)`, counted from `i`
unfoldable pub find_at : Text → Text → ℕ → Option ℕ
find_at sub [] i = if starts_with sub [] then some i else none
find_at sub (c ∷ text) i =
    let rest = find_at sub text (i + 1) in if starts_with sub (c ∷ text) then some i else rest

-- `output.find(intent, start)`
unfoldable pub find : Text → Text → ℕ → Option ℕ
find intent output start = find_at intent (drop start output) start

-- the loop over `start`; the fuel bounds its rounds
unfoldable pub find_all : ℕ → Text → Text → ℕ → List (ℕ × Text)
find_all zero intent output start = []
find_all (suc fuel) intent output start = elim (find intent output start) [
  | none ↦ []
  | some index ↦ (index, intent) ∷ find_all fuel intent output (index + length intent)
]

-- the loop over the valid intents. A round moves `start` by at least 1, for an intent that is not
-- empty, so `length output + 1` rounds are enough.
unfoldable pub matches_of : List Text → Text → List (ℕ × Text)
matches_of [] output = []
matches_of (intent ∷ rest) output =
    find_all (length output + 1) intent output 0 ++ matches_of rest output

-- `max(matches, key=lambda item: item[0])`, the first one of the greatest
unfoldable pub latest : ℕ × Text → List (ℕ × Text) → ℕ × Text
latest best [] = best
latest best (m ∷ rest) = latest (if ltb best.0 m.0 then m else best) rest

unfoldable pub chosen : List (ℕ × Text) → Text
chosen [] = unknown
chosen (m ∷ rest) = (latest m rest).1

unfoldable pub parse_intent_from_slm_output : Text → List Text → Text
parse_intent_from_slm_output output valid_intents =
    chosen (matches_of (valid_intents ++ unknown ∷ []) output)
