-- ===== src/Session/Quiet.antt =====
-- brain/session.py: which fields the checks of a frame touch
use nubjuk_brain.Prelude.{ℕ, ◌≡◌, refl, ◌∙◌, not, Option, none, some, ◌∷◌, if-intro, ◌==◌, length}
use nubjuk_brain.Errors.{Result}
use nubjuk_brain.Pipeline.{Bytes, StiPipeline}
use nubjuk_brain.Session.State.{
  Warning, SessionManager, warn, audio_in, ◌is◌, expected_pcm_payload_bytes, unexpected_pcm_bytes,
  reserved_nonzero, unknown_flags, seq_non_monotonic, frame_too_short, frame_count_mismatch,
}
use nubjuk_brain.Session.Frames.{
  expect_after, check_seq, check_flags, check_reserved, check_payload, count_frame, feed_pipeline,
  accept_frame, feed_audio, unknown_bits,
}
use nubjuk_brain.Session.Methods.{report_frames}
use nubjuk_brain.Session.Diagram.{IsTraced, warn-IsTraced}

module _ {P : Type 0} where
  -- `m` goes over into `n` with the same state, lock and options, and its log stays a trace.
  pub record IsQuiet (m n : SessionManager P) : Type 0 where
    pub state : n.state ≡ m.state
    pub locked : n.locked ≡ m.locked
    pub opts : n.opts ≡ m.opts
    pub traced : IsTraced m → IsTraced n

  pub IsQuiet-refl : (m : SessionManager P) → IsQuiet m m
  IsQuiet-refl m = record { state = refl; locked = refl; opts = refl; traced = λ h. h }

  pub IsQuiet-trans : {m n k : SessionManager P} → IsQuiet m n → IsQuiet n k → IsQuiet m k
  IsQuiet-trans a b = record {
    state = b.state ∙ a.state;
    locked = b.locked ∙ a.locked;
    opts = b.opts ∙ a.opts;
    traced = λ h. b.traced (a.traced h);
  }

  pub IsQuiet-warn : (w : Warning) (m : SessionManager P) → IsQuiet m (warn w m)
  unfolding warn
  IsQuiet-warn w m = record { state = refl; locked = refl; opts = refl; traced = warn-IsTraced w m }

  IsQuiet-expect_after : (seq : ℕ) (m : SessionManager P) → IsQuiet m (expect_after seq m)
  unfolding expect_after
  IsQuiet-expect_after seq m = record { state = refl; locked = refl; opts = refl; traced = λ h. h }

  IsQuiet-check_seq :
      (e : Option ℕ) (seq : ℕ) (m : SessionManager P) → IsQuiet m (check_seq e seq m)
  unfolding check_seq
  IsQuiet-check_seq none seq m = IsQuiet-expect_after seq m
  IsQuiet-check_seq (some e) seq m =
      if-intro (IsQuiet m) (not (seq == e))
        (λ _. IsQuiet-trans (IsQuiet-warn (seq_non_monotonic e seq) m) (IsQuiet-expect_after seq _))
        (λ _. IsQuiet-expect_after e m)

  IsQuiet-check_flags : (flags : ℕ) (m : SessionManager P) → IsQuiet m (check_flags flags m)
  unfolding check_flags
  IsQuiet-check_flags flags m =
      if-intro (IsQuiet m) (not (unknown_bits flags == 0))
        (λ _. IsQuiet-warn (unknown_flags flags) m) (λ _. IsQuiet-refl m)

  IsQuiet-check_reserved : (r : ℕ) (m : SessionManager P) → IsQuiet m (check_reserved r m)
  unfolding check_reserved
  IsQuiet-check_reserved r m =
      if-intro (IsQuiet m) (not (r == 0)) (λ _. IsQuiet-warn (reserved_nonzero r) m)
        (λ _. IsQuiet-refl m)

  IsQuiet-check_payload : (b : Bytes) (m : SessionManager P) → IsQuiet m (check_payload b m)
  unfolding check_payload
  IsQuiet-check_payload b m =
      if-intro (IsQuiet m) (not (length b == expected_pcm_payload_bytes))
        (λ _. IsQuiet-warn (unexpected_pcm_bytes (length b)) m) (λ _. IsQuiet-refl m)

  IsQuiet-count_frame : (b : Bytes) (m : SessionManager P) → IsQuiet m (count_frame b m)
  unfolding count_frame
  IsQuiet-count_frame b m = record { state = refl; locked = refl; opts = refl; traced = λ h. h }

  pub IsQuiet-report_frames : (n : ℕ) (m : SessionManager P) → IsQuiet m (report_frames n m)
  unfolding report_frames
  IsQuiet-report_frames n m =
      let m₁ = record m { stats = record m.stats { frames_reported = some n } } in
      if-intro (IsQuiet m) (not (n == m.stats.frames_observed))
        (λ _.
          IsQuiet-trans {n = m₁}
            (record { state = refl; locked = refl; opts = refl; traced = λ h. h })
            (IsQuiet-warn (frame_count_mismatch n m.stats.frames_observed) m₁))
        (λ _. record { state = refl; locked = refl; opts = refl; traced = λ h. h })

module _ {P : Type 0} (ops : StiPipeline P) where
  IsQuiet-feed_pipeline : (b : Bytes) (m : SessionManager P) → IsQuiet m (feed_pipeline ops b m).1
  unfolding feed_pipeline
  IsQuiet-feed_pipeline b m = record { state = refl; locked = refl; opts = refl; traced = λ h. h }

  IsQuiet-accept_frame : (b : Bytes) (m : SessionManager P) → IsQuiet m (accept_frame ops b m).1
  unfolding accept_frame
  IsQuiet-accept_frame (high ∷ low ∷ flags ∷ reserved ∷ payload) m =
      IsQuiet-trans (IsQuiet-check_seq m.stats.expected_seq _ m) (
        IsQuiet-trans (IsQuiet-check_flags flags _) (
          IsQuiet-trans (IsQuiet-check_reserved reserved _) (
            IsQuiet-trans (IsQuiet-check_payload payload _)
              (IsQuiet-trans (IsQuiet-count_frame payload _) (IsQuiet-feed_pipeline payload _)))))
  IsQuiet-accept_frame _ m = IsQuiet-warn frame_too_short m

  pub IsQuiet-feed_audio : (b : Bytes) (m : SessionManager P) → IsQuiet m (feed_audio ops b m).1
  unfolding feed_audio
  IsQuiet-feed_audio b m =
      if-intro {A = Result (Unit {0}) × SessionManager P} (λ r. IsQuiet m r.1)
        (not (m.state is audio_in)) (λ _. IsQuiet-refl m) (λ _. IsQuiet-accept_frame b m)
