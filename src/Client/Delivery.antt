-- ===== src/Client/Delivery.antt =====
-- scripts/send_wav_to_brain.py: the client's frames as the session manager receives them
use nubjuk_brain.Prelude.{
  ℕ, suc, ◌+◌, ◌*◌, ◌/◌, ◌%◌, ◌≤◌, ◌≡◌, refl, ◌∙◌, ◌⊎◌, inl, inr, Option, none, some, List, [], ◌∷◌,
  length, append-nil, arith,
}
use nubjuk_brain.Errors.{ok}
use nubjuk_brain.Pipeline.{Bytes, StiPipeline}
use nubjuk_brain.Session.{
  SessionManager, SessionStats, audio_in, feed_audio, warn, report_frames, write_log,
}
use nubjuk_brain.Session.Quiet.{IsQuiet-feed_audio}
use nubjuk_brain.Session.Reception.{
  received, warnings, seq_warnings, header_warnings, payload_warnings, feed_audio-received,
}
use nubjuk_brain.Client.{AudioFrame, to_wire, iter_audio_frames}
use nubjuk_brain.Client.Frames.{IsRun, iter_audio_frames-IsRun}

-- nothing is expected yet, or the frame numbered `seq`
abbrev pub Expects : ℕ → Option ℕ → Type 0
Expects seq e = (e ≡ none) ⊎ (e ≡ some (seq % 65536))

-- A frame that deserves no warning.
warnings_clean :
    (seq flags : ℕ) (e : Option ℕ) (payload : Bytes)
    → Expects seq e
    → flags ≤ 1
    → length payload ≡ 1280
    → warnings e (seq % 65536) flags 0 payload ≡ []
unfolding warnings seq_warnings header_warnings payload_warnings
warnings_clean seq flags none payload x f l = ground arith
warnings_clean seq flags (some e) payload x f l = ground arith

-- the numbers after the delivery of `n` whole frames: counted, and no warning
record IsClean (n : ℕ) (before after : SessionStats) : Type 0 where
  pub warned : after.frame_warnings ≡ before.frame_warnings
  pub observed : after.frames_observed ≡ before.frames_observed + n
  pub bytes : after.audio_bytes ≡ before.audio_bytes + 1280 * n

IsClean-trans : {n : ℕ} {s t u : SessionStats} → IsClean 1 s t → IsClean n t u → IsClean (suc n) s u
IsClean-trans p q = record {
  warned = q.warned ∙ p.warned;
  observed = omega arith;
  bytes = omega arith;
}

module _ {P : Type 0} (ops : StiPipeline P) where
  -- the frames, one after another
  unfoldable pub deliver : List AudioFrame → SessionManager P → SessionManager P
  deliver [] m = m
  deliver (f ∷ fs) m = deliver fs (feed_audio ops (to_wire f) m).1

  feed_frame-stats :
      (seq : ℕ) (f : AudioFrame) (m : SessionManager P)
      → m.state ≡ audio_in
      → Expects seq m.stats.expected_seq
      → f.seq ≡ seq % 65536
      → f.flags ≤ 1
      → length f.payload ≡ 1280
      → (feed_audio ops (to_wire f) m).1.stats ≡ record m.stats {
        frames_observed = m.stats.frames_observed + 1;
        audio_bytes = m.stats.audio_bytes + 1280;
        expected_seq = some ((seq + 1) % 65536);
      }
  unfolding to_wire received
  feed_frame-stats seq f m e x s g l =
      (feed_audio-received ops (f.seq / 256) (f.seq % 256) f.flags 0 f.payload m e).0
      ∙ (let decoded : f.seq / 256 * 256 + f.seq % 256 ≡ seq % 65536 = omega arith in
          let next : (seq % 65536 + 1) % 65536 ≡ (seq + 1) % 65536 = omega arith in
          rw (
            decoded,
            warnings_clean seq f.flags m.stats.expected_seq f.payload x g l,
            append-nil,
            l,
            next,
          ))

  feed_frame-IsClean :
      (seq : ℕ) (f : AudioFrame) (m : SessionManager P)
      → m.state ≡ audio_in
      → Expects seq m.stats.expected_seq
      → f.seq ≡ seq % 65536
      → f.flags ≤ 1
      → length f.payload ≡ 1280
      → IsClean 1 m.stats (feed_audio ops (to_wire f) m).1.stats
  feed_frame-IsClean seq f m e x s g l =
      let t = feed_frame-stats seq f m e x s g l in
      record { warned = rw t; observed = rw t; bytes = rw t }

  deliver-IsClean :
      (seq : ℕ) (fs : List AudioFrame) (m : SessionManager P)
      → m.state ≡ audio_in
      → Expects seq m.stats.expected_seq
      → IsRun 1280 seq fs
      → IsClean (length fs) m.stats (deliver fs m).stats
  unfolding deliver
  deliver-IsClean seq [] m e x r = record {
    warned = refl;
    observed = omega arith;
    bytes = omega arith;
  }
  deliver-IsClean seq (f ∷ []) m e x r = feed_frame-IsClean seq f m e x r.0 (omega arith) r.1
  deliver-IsClean seq (f ∷ g ∷ fs) m e x r =
      let s = feed_frame-stats seq f m e x r.0 (omega arith) r.1 in
      let still = (IsQuiet-feed_audio ops (to_wire f) m).state ∙ e in
      IsClean-trans (feed_frame-IsClean seq f m e x r.0 (omega arith) r.1) (
        deliver-IsClean (seq + 1) (g ∷ fs) (feed_audio ops (to_wire f) m).1 still (rw s (inr refl))
          r.3)

  -- A client that cuts its PCM into frames of 640 samples, sends them in order to a session that
  -- has received none, and reports their number, causes no warning: all frames are counted, at
  -- 1280 bytes each.
  pub client_unwarned :
      (pcm : Bytes) (m : SessionManager P)
      → m.state ≡ audio_in
      → m.stats.expected_seq ≡ none
      → m.stats.frames_observed ≡ 0
      → (frames : List AudioFrame) × (iter_audio_frames pcm 640 ≡ ok frames)
        × ((report_frames (length frames) (deliver frames m)).stats.frame_warnings
            ≡ m.stats.frame_warnings)
        × ((deliver frames m).stats.frames_observed ≡ length frames)
        × ((deliver frames m).stats.audio_bytes ≡ m.stats.audio_bytes + 1280 * length frames)
  unfolding report_frames warn write_log
  client_unwarned pcm m e x z =
      let (frames, cut, run, _) = iter_audio_frames-IsRun pcm 640 (omega arith) in
      let c = deliver-IsClean 0 frames m e (inl x) run in
      (frames, cut, ground arith, omega arith, c.bytes)
