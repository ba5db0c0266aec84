-- ===== src/Recording/Accepted.antt =====
-- scripts/record_voice.py with scripts/send_wav_to_brain.py: a recording as the client reads it
use nubjuk_brain.Prelude.{
  ℕ, ◌*◌, ◌/◌, ◌%◌, ◌<◌, ◌≡◌, refl, true, some, List, [], ◌∷◌, length, All, arith,
}
use nubjuk_brain.Errors.{ok}
use nubjuk_brain.Pipeline.Pcm.{ℤ, pos, negsuc, sample, samples_of, pcm_s16le_samples}
use nubjuk_brain.Client.Dialogue.{Wave, read_wav_audio}
use nubjuk_brain.Recording.{
  Arguments, SoundDevice, wrote, word, tobytes, write_wav, after_rec, record_with, main,
}

-- a sample of 16 bits
abbrev pub IsSample : ℤ → Type 0
IsSample (pos n) = n < 32768
IsSample (negsuc n) = n < 32768

sample-word : (x : ℤ) → IsSample x → sample (word x % 256) (word x / 256) ≡ x
unfolding sample word
sample-word (pos n) h = ground arith
sample-word (negsuc n) h = ground arith

samples_of-tobytes : (xs : List ℤ) → All IsSample xs → samples_of (tobytes xs) ≡ xs
unfolding samples_of tobytes
samples_of-tobytes [] h = refl
samples_of-tobytes (x ∷ xs) h = rw (sample-word x h.0, samples_of-tobytes xs h.1) refl

length-tobytes : (xs : List ℤ) → length (tobytes xs) ≡ 2 * length xs
unfolding tobytes
length-tobytes [] = refl
length-tobytes (x ∷ xs) = let ih = length-tobytes xs in omega arith

-- what the client reads from a recording, and what the server's transcriber makes of it
pub record IsRead (xs : List ℤ) (count : ℕ) (w : Wave) : Type 0 where
  pub read : read_wav_audio w ≡ ok (record { pcm = tobytes xs; duration_ms = count * 1000 / 16000 })
  pub samples : pcm_s16le_samples (tobytes xs) ≡ ok xs

-- A recording at 16 kHz, with a device that returns as many 16-bit samples as it is asked for, at least
-- one: `main` writes a file that the client accepts, with the duration of the samples, and whose PCM the
-- server reads back as the samples of the device.
pub main-IsRead :
    (args : Arguments) (device : SoundDevice) (xs : List ℤ)
    → args.seconds_positive ≡ true
    → args.sample_rate ≡ 16000
    → device.rec args.sample_count 16000 ≡ ok xs
    → length xs ≡ args.sample_count
    → 0 < args.sample_count
    → All IsSample xs
    → (w : Wave) × (main args (some device) ≡ wrote w) × IsRead xs args.sample_count w
unfolding main record_with after_rec write_wav read_wav_audio pcm_s16le_samples
main-IsRead args device xs s r d n p h =
    let size = length-tobytes xs in
    let back = samples_of-tobytes xs h in
    (
      write_wav 16000 (tobytes xs),
      rw (s, r, d) refl,
      record { read = ground arith; samples = ground arith },
    )
