-- ===== src/Intent/Phonetic.antt =====
-- brain/intent/catalog.py: `phonetic_similarity`. Division and rounding of floats are a parameter.
pub mod Scores
use nubjuk_brain.Prelude.{
  ℕ, zero, suc, ◌+◌, ◌-◌, ◌≤◌, ◌<◌, max, ◌≡◌, Bool, ◌||◌, List, [], ◌∷◌, Text, length, take, drop,
  ltb, ◌==◌, if◌then◌else◌,
}
use nubjuk_brain.Pipeline.{Float}
use nubjuk_brain.Intent.Hangul.{hangul_syllables, hangul_pronunciation_key}
use nubjuk_brain.Intent.Distance.{levenshtein_distance}

-- The float operations of the catalog, on floats from 0 to 1: `d / n` of two integers, `1.0 - x`,
-- `round(x, 3)`, and the constants that it names.
pub record Floats : Type 0 where
  pub one : Float
  pub ratio : ℕ → ℕ → Float
  pub one_minus : Float → Float
  pub round_3 : Float → Float
  pub match_floor : Float
  pub candidate_floor : Float

-- What is used of them: `0 / n` is 0.0, `1.0 - 0.0` is 1.0, no difference from 1.0 exceeds it, and
-- the literal 0.76 lies below 1.0.
pub record FloatsLaws (fl : Floats) : Type 0 where
  pub ratio_zero : (n : ℕ) → fl.ratio 0 n ≡ 0
  pub one_minus_zero : fl.one_minus 0 ≡ fl.one
  pub one_minus_le : (x : Float) → fl.one_minus x ≤ fl.one
  pub match_floor_lt : fl.match_floor < fl.one

-- `sorted(window_sizes)`: the set holds `n`, `n + 1` and, if `n > 4`, `n - 1`
unfoldable pub window_sizes : ℕ → List ℕ
window_sizes n = if ltb 4 n then (n - 1) ∷ n ∷ (n + 1) ∷ [] else n ∷ (n + 1) ∷ []

module _ (fl : Floats) where
  -- `1.0 - distance / denominator`
  unfoldable pub window_score : Text → Text → Float
  window_score alias_key window =
      let window_key = hangul_pronunciation_key window in
      let distance = levenshtein_distance alias_key window_key in
      let denominator = max (max (length alias_key) (length window_key)) 1 in
      fl.one_minus (fl.ratio distance denominator)

  -- the loop over `start`, with the rounds that are left
  unfoldable pub scan_starts : Text → Text → ℕ → ℕ → ℕ → Float → Float
  scan_starts alias_key syllables window_size zero start best = best
  scan_starts alias_key syllables window_size (suc rounds) start best =
      scan_starts alias_key syllables window_size rounds (start + 1)
        (max best (window_score alias_key (take window_size (drop start syllables))))

  -- one round of the loop over `window_size`
  unfoldable pub scan_size : Text → Text → ℕ → Float → Float
  scan_size alias_key syllables window_size best =
      if window_size == 0 || ltb (length syllables) window_size
      then best
      else scan_starts alias_key syllables window_size (length syllables - window_size + 1) 0 best

  unfoldable pub scan_sizes : Text → Text → List ℕ → Float → Float
  scan_sizes alias_key syllables [] best = best
  scan_sizes alias_key syllables (window_size ∷ sizes) best =
      scan_sizes alias_key syllables sizes (scan_size alias_key syllables window_size best)

  unfoldable pub phonetic_similarity : Text → Text → Float
  phonetic_similarity alias text =
      let alias_syllables = hangul_syllables alias in
      let text_syllables = hangul_syllables text in
      if ltb (length alias_syllables) 2 || ltb (length text_syllables) 2
      then 0
      else scan_sizes (hangul_pronunciation_key alias_syllables) text_syllables
          (window_sizes (length alias_syllables)) 0
