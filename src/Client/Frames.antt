-- ===== src/Client/Frames.antt =====
-- scripts/send_wav_to_brain.py: numbers, sizes, flags and payloads of the frames
use nubjuk_brain.Prelude.{
  ℕ, zero, suc, ◌+◌, ◌-◌, ◌*◌, ◌%◌, ◌≤◌, ◌<◌, ◌≡◌, refl, List, [], ◌∷◌, ◌++◌, length, take, drop,
  replicate, lt→ltb, le→leb, le→not_ltb, take_of_length-le, drop_of_length-le, drop-drop,
  take-append-drop, arith, length-append, length-take, length-drop, length-replicate, append-nil,
  append_assoc,
}
use native.Mathlib.Decide.{dec_lt}
use nubjuk_brain.Errors.{ok}
use nubjuk_brain.Pipeline.{Bytes}
use nubjuk_brain.Client.{AudioFrame, cut_frame, cut_frames, iter_audio_frames}

-- Frames numbered from `seq` modulo 2 ^ 16, each with `frame_bytes` bytes; flags 1 on the last
-- frame and 0 on the others.
abbrev pub IsRun : ℕ → ℕ → List AudioFrame → Type 0
IsRun frame_bytes seq [] = Unit
IsRun frame_bytes seq (f ∷ []) =
    (f.seq ≡ seq % 65536) × (length f.payload ≡ frame_bytes) × (f.flags ≡ 1)
IsRun frame_bytes seq (f ∷ g ∷ fs) =
    (f.seq ≡ seq % 65536)
    × (length f.payload ≡ frame_bytes)
    × (f.flags ≡ 0)
    × IsRun frame_bytes (seq + 1) (g ∷ fs)

unfoldable pub payloads : List AudioFrame → Bytes
payloads [] = []
payloads (f ∷ fs) = f.payload ++ payloads fs

module _ (b : ℕ) (pcm : Bytes) where
  cut_frame-length :
      (seq offset : ℕ) → offset < length pcm → length (cut_frame b pcm seq offset).payload ≡ b
  unfolding cut_frame
  cut_frame-length seq offset h = ground (
    arith,
    length-take b (drop offset pcm),
    length-drop offset pcm,
    length-append (take b (drop offset pcm))
        (replicate {A = ℕ} (b - length (take b (drop offset pcm))) 0),
    length-replicate {A = ℕ} (b - length (take b (drop offset pcm))) 0,
  )

  cut_frames_done :
      (fuel seq offset : ℕ) → length pcm ≤ offset → cut_frames fuel b pcm seq offset ≡ []
  unfolding cut_frames
  cut_frames_done zero seq offset h = refl
  cut_frames_done (suc fuel) seq offset h = ground arith

  cut_frames_more :
      (fuel seq offset : ℕ)
      → offset < length pcm
      → cut_frames (suc fuel) b pcm seq offset
        ≡ cut_frame b pcm seq offset ∷ cut_frames fuel b pcm (seq + 1) (offset + b)
  unfolding cut_frames
  cut_frames_more fuel seq offset h = rw (lt→ltb _ _ h)

  cut_frame_flags :
      (seq offset : ℕ)
      → ((length pcm ≤ offset + b) → (cut_frame b pcm seq offset).flags ≡ 1)
        × ((offset + b < length pcm) → (cut_frame b pcm seq offset).flags ≡ 0)
  unfolding cut_frame
  cut_frame_flags seq offset = (λ h. ground arith, λ h. ground arith)

  cut_frames-IsRun :
      (fuel seq offset : ℕ)
      → 0 < b
      → length pcm ≤ offset + fuel
      → IsRun b seq (cut_frames fuel b pcm seq offset)
  cut_frames-IsRun zero seq offset pos enough = rw (cut_frames_done 0 seq offset (omega arith)) tt
  cut_frames-IsRun (suc zero) seq offset pos enough = elim (dec_lt offset (length pcm)) [
    | no p ↦ rw (cut_frames_done 1 seq offset (omega arith)) tt
    | yes p ↦
        rw (cut_frames_more 0 seq offset p, cut_frames_done 0 (seq + 1) (offset + b) (omega arith))
          (
            unfold cut_frame in refl,
            cut_frame-length seq offset p,
            (cut_frame_flags seq offset).0 (omega arith),
          )
  ]
  cut_frames-IsRun (suc (suc fuel)) seq offset pos enough = elim (dec_lt offset (length pcm)) [
    | no p ↦ rw (cut_frames_done (suc (suc fuel)) seq offset (omega arith)) tt
    | yes p ↦
        rw (cut_frames_more (suc fuel) seq offset p) (elim (dec_lt (offset + b) (length pcm)) [
          | no q ↦ rw (cut_frames_done (suc fuel) (seq + 1) (offset + b) (omega arith)) (
            unfold cut_frame in refl,
            cut_frame-length seq offset p,
            (cut_frame_flags seq offset).0 (omega arith),
          )
          | yes q ↦
              let rest = cut_frames-IsRun (suc fuel) (seq + 1) (offset + b) pos (omega arith) in
              let more = cut_frames_more fuel (seq + 1) (offset + b) q in
              rw more (
                unfold cut_frame in refl,
                cut_frame-length seq offset p,
                (cut_frame_flags seq offset).1 q,
                rw more at rest,
              )
        ])
  ]

  cut_frame_last :
      (seq offset : ℕ)
      → length pcm ≤ offset + b
      → (cut_frame b pcm seq offset).payload
        ≡ drop offset pcm ++ replicate (b - length (drop offset pcm)) 0
  unfolding cut_frame
  cut_frame_last seq offset h =
      let rest = drop offset pcm in
      let short : length rest ≤ b = omega (arith, length-drop offset pcm) in
      rw (take_of_length-le b rest short) (elim (dec_lt (length rest) b) [
        | yes p ↦ rw (le→leb _ _ h, lt→ltb _ _ p)
        | no p ↦
            let full : b - length rest ≡ 0 = omega arith in
            rw (le→leb _ _ h, le→not_ltb b (length rest) (omega arith), full, append-nil)
      ])

  cut_frame_inner :
      (seq offset : ℕ)
      → offset + b < length pcm
      → (cut_frame b pcm seq offset).payload ≡ take b (drop offset pcm)
  unfolding cut_frame
  cut_frame_inner seq offset h = ground arith

  -- the payloads from `offset` on: the rest of the PCM and fewer than `b` zero bytes
  payloads-cut_frames :
      (fuel seq offset : ℕ)
      → 0 < b
      → length pcm ≤ offset + fuel
      → (z : ℕ) × (z < b)
        × (payloads (cut_frames fuel b pcm seq offset) ≡ drop offset pcm ++ replicate z 0)
  unfolding payloads
  payloads-cut_frames zero seq offset pos enough = (
    0,
    pos,
    rw (cut_frames_done 0 seq offset (omega arith), drop_of_length-le offset pcm (omega arith)),
  )
  payloads-cut_frames (suc fuel) seq offset pos enough = elim (dec_lt offset (length pcm)) [
    | no p ↦ (
      0,
      pos,
      rw (
        cut_frames_done (suc fuel) seq offset (omega arith),
        drop_of_length-le offset pcm (omega arith),
      ),
    )
    | yes p ↦ elim (dec_lt (offset + b) (length pcm)) [
      | no q ↦ (
        b - length (drop offset pcm),
        omega (arith, length-drop offset pcm),
        rw (
          cut_frames_more fuel seq offset p,
          cut_frames_done fuel (seq + 1) (offset + b) (omega arith),
          cut_frame_last seq offset (omega arith),
          append-nil,
        ),
      )
      | yes q ↦
          let (z, small, e) = payloads-cut_frames fuel (seq + 1) (offset + b) pos (omega arith) in
          (
            z,
            small,
            rw (
              cut_frames_more fuel seq offset p,
              cut_frame_inner seq offset q,
              e,
              ← drop-drop offset b pcm,
              ← append_assoc,
              take-append-drop,
            ),
          )
    ]
  ]

-- For a positive frame size the client's frames are numbered from 0 modulo 2 ^ 16, each as long as
-- a frame, flagged 1 at the end and 0 before it, and their payloads are the PCM followed by fewer
-- zero bytes than a frame holds.
pub iter_audio_frames-IsRun :
    (pcm : Bytes) (frame_samples : ℕ)
    → 0 < frame_samples
    → (frames : List AudioFrame) × (iter_audio_frames pcm frame_samples ≡ ok frames)
      × IsRun (frame_samples * 2) 0 frames
      × ((z : ℕ) × (z < frame_samples * 2) × (payloads frames ≡ pcm ++ replicate z 0))
unfolding iter_audio_frames
iter_audio_frames-IsRun pcm n pos = (
  cut_frames (length pcm) (n * 2) pcm 0 0,
  ground arith,
  cut_frames-IsRun (n * 2) pcm (length pcm) 0 0 (omega arith) (omega arith),
  payloads-cut_frames (n * 2) pcm (length pcm) 0 0 (omega arith) (omega arith),
)
