-- ===== src/Recording.antt =====
-- scripts/record_voice.py: what `main` writes. The command line, the microphone and the product of the
-- rate and the seconds, which are floats, are parameters.
pub mod Accepted
use nubjuk_brain.Prelude.{
  ℕ, ◌-◌, ◌/◌, ◌%◌, Bool, String, Option, none, some, List, [], ◌∷◌, length, not, if◌then◌else◌,
}
use nubjuk_brain.Errors.{Result, ok, raise, Exception}
use nubjuk_brain.Pipeline.{Bytes}
use nubjuk_brain.Pipeline.Pcm.{ℤ, pos, negsuc}
use nubjuk_brain.Client.Dialogue.{Wave}

-- `args`, parsed: whether `args.seconds` is above 0, the rate, and `int(args.sample_rate * args.seconds)`
pub record Arguments : Type 0 where
  pub seconds_positive : Bool
  pub sample_rate : ℕ
  pub sample_count : ℕ

-- `sounddevice`: `rec` and `wait`, of a count of samples and a rate, on one channel of 16-bit samples
pub record SoundDevice : Type 0 where
  pub rec : ℕ → ℕ → Result (List ℤ)

-- How `main` ends: argparse exits with a message, 1 is returned, or 0 after the file is written.
pub data Ended : Type 0 where
  usage_error : String → Ended
  failed : Ended
  wrote : Wave → Ended

-- `tobytes` of a sample of 16 bits, on a little-endian machine
unfoldable pub word : ℤ → ℕ
word (pos n) = n
word (negsuc n) = 65535 - n

unfoldable pub tobytes : List ℤ → Bytes
tobytes [] = []
tobytes (x ∷ xs) = word x % 256 ∷ word x / 256 ∷ tobytes xs

-- the file, of one channel of two bytes; `wave` counts its frames
unfoldable pub write_wav : ℕ → Bytes → Wave
write_wav sample_rate frames = record {
  channels = 1;
  sample_width = 2;
  sample_rate = sample_rate;
  frame_count = length frames / 2;
  frames = frames;
}

unfoldable pub after_rec : ℕ → Result (List ℤ) → Ended
after_rec sample_rate (ok recording) = wrote (write_wav sample_rate (tobytes recording))
after_rec sample_rate (raise e) = failed

-- `main`; the device is none where the import of `sounddevice` fails
unfoldable pub record_with : Arguments → Option SoundDevice → Ended
record_with args none = failed
record_with args (some device) =
    after_rec args.sample_rate (device.rec args.sample_count args.sample_rate)

unfoldable pub main : Arguments → Option SoundDevice → Ended
main args device =
    if not args.seconds_positive
    then usage_error "--seconds must be positive"
    else record_with args device
