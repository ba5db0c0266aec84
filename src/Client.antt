-- ===== src/Client.antt =====
-- scripts/send_wav_to_brain.py: how the client cuts PCM into frames and puts them on the wire
pub mod Frames
pub mod Delivery
pub mod Dialogue
pub mod Script
use nubjuk_brain.Prelude.{
  ℕ, zero, suc, ◌+◌, ◌-◌, ◌*◌, ◌/◌, ◌%◌, ◌&&◌, List, [], ◌∷◌, ◌++◌, length, take, drop, replicate,
  ltb, leb, ◌==◌, if◌then◌else◌,
}
use nubjuk_brain.Errors.{Result, ok, raise, runtime}
use nubjuk_brain.Pipeline.{Bytes}

abbrev pub sample_width_bytes : ℕ
sample_width_bytes = 2

pub record AudioFrame : Type 0 where
  pub seq : ℕ
  pub flags : ℕ
  pub payload : Bytes

-- `seq.to_bytes(2, "big") + bytes([flags, 0]) + payload`, for a `seq` below 2 ^ 16
unfoldable pub to_wire : AudioFrame → Bytes
to_wire f = f.seq / 256 ∷ f.seq % 256 ∷ f.flags ∷ 0 ∷ f.payload

-- the body of the loop, at one `seq` and `offset`
unfoldable pub cut_frame : ℕ → Bytes → ℕ → ℕ → AudioFrame
cut_frame frame_bytes pcm seq offset =
    let piece = take frame_bytes (drop offset pcm) in
    let is_last = leb (length pcm) (offset + frame_bytes) in
    record {
      seq = seq % 65536;
      flags = if is_last then 1 else 0;
      payload =
          if is_last && ltb (length piece) frame_bytes
          then piece ++ replicate (frame_bytes - length piece) 0
          else piece;
    }

-- the loop over `enumerate(range(0, len(pcm), frame_bytes))`; the fuel bounds its rounds
unfoldable pub cut_frames : ℕ → ℕ → Bytes → ℕ → ℕ → List AudioFrame
cut_frames zero frame_bytes pcm seq offset = []
cut_frames (suc fuel) frame_bytes pcm seq offset =
    let rest = cut_frames fuel frame_bytes pcm (seq + 1) (offset + frame_bytes) in
    if ltb offset (length pcm) then cut_frame frame_bytes pcm seq offset ∷ rest else []

-- A round moves the offset by at least 1, so `length pcm` rounds are enough. The `ValueError` is
-- written as `runtime`.
unfoldable pub iter_audio_frames : Bytes → ℕ → Result (List AudioFrame)
iter_audio_frames pcm frame_samples =
    if frame_samples == 0
    then raise (runtime "frame_samples must be positive")
    else ok (cut_frames (length pcm) (frame_samples * sample_width_bytes) pcm 0 0)
