-- ===== src/Pipeline/Pcm.antt =====
-- brain/pipeline/moonshine_tiny_ko.py: 16-bit samples, their statistics, and the size of audio
use nubjuk_brain.Prelude.{
  ℕ, suc, ◌+◌, ◌-◌, ◌*◌, ◌/◌, ◌%◌, max, ◌≡◌, List, [], ◌∷◌, length, ltb, leb, ◌==◌, not,
  if◌then◌else◌, arith,
}
use nubjuk_brain.Errors.{Result, ok, raise, runtime}
use nubjuk_brain.Pipeline.{Bytes}

-- A signed sample: `pos n` is n and `negsuc n` is -(n + 1).
pub data ℤ : Type 0 where
  pos : ℕ → ℤ
  negsuc : ℕ → ℤ

-- an integer that is not negative
abbrev pub nat_of : ℤ → ℕ
nat_of (pos n) = n
nat_of (negsuc n) = 0

-- `abs`
unfoldable pub absolute : ℤ → ℕ
absolute (pos n) = n
absolute (negsuc n) = suc n

-- one little-endian 16-bit sample, in two's complement
unfoldable pub sample : ℕ → ℕ → ℤ
sample low high =
    let word = low + 256 * high in if ltb word 32768 then pos word else negsuc (65535 - word)

unfoldable pub samples_of : Bytes → List ℤ
samples_of (low ∷ high ∷ rest) = sample low high ∷ samples_of rest
samples_of _ = []

unfoldable pub pcm_s16le_samples : Bytes → Result (List ℤ)
pcm_s16le_samples pcm =
    if not (length pcm % 2 == 0)
    then raise (runtime "PCM payload must contain whole 16-bit samples")
    else ok (samples_of pcm)

-- The integers of `pcm_s16le_stats`; the floats of the logged line are quotients of these.
pub record PcmStats : Type 0 where
  pub sample_count : ℕ
  pub duration_ms : ℕ
  pub square_sum : ℕ
  pub peak : ℕ
  pub nonzero : ℕ
  pub clipped : ℕ

abbrev pub no_stats : PcmStats
no_stats = record {
  sample_count = 0;
  duration_ms = 0;
  square_sum = 0;
  peak = 0;
  nonzero = 0;
  clipped = 0;
}

-- the loop over the samples
unfoldable pub tally : List ℤ → PcmStats → PcmStats
tally [] s = s
tally (x ∷ xs) s =
    let a = absolute x in
    tally xs (record s {
      peak = max s.peak a;
      square_sum = s.square_sum + a * a;
      nonzero = if not (a == 0) then s.nonzero + 1 else s.nonzero;
      clipped = if leb 32760 a then s.clipped + 1 else s.clipped;
    })

unfoldable pub stats_of : List ℤ → PcmStats
stats_of [] = no_stats
stats_of (x ∷ xs) =
    let n = length (x ∷ xs) in
    tally (x ∷ xs) (record no_stats { sample_count = n; duration_ms = n * 1000 / 16000 })

unfoldable pub pcm_s16le_stats : Bytes → Result PcmStats
pcm_s16le_stats pcm = elim (pcm_s16le_samples pcm) [ ok xs ↦ ok (stats_of xs) | raise e ↦ raise e ]

-- `int(SAMPLE_RATE_HZ * BYTES_PER_SAMPLE * duration_ms / 1000)`; the quotient is whole, so the
-- float division is exact below 2 ^ 53
unfoldable pub audio_bytes_for_ms : ℕ → ℕ
audio_bytes_for_ms duration_ms = 16000 * 2 * duration_ms / 1000

-- 32 bytes of audio for each millisecond.
pub audio_bytes_for_ms_lem : (ms : ℕ) → audio_bytes_for_ms ms ≡ 32 * ms
unfolding audio_bytes_for_ms
audio_bytes_for_ms_lem ms = omega arith
