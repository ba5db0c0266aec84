-- ===== src/Session/Outcomes.antt =====
-- brain/session.py: what single calls do, on every branch
use nubjuk_brain.Prelude.{
  ℕ, String, ◌≡◌, refl, sym, subst, Bool, true, false, none, some, arith, ap, ◌∙◌, Bool-cases, inl,
  inr,
}
use nubjuk_brain.Errors.{Result, ok, raise, sti, cancelled_error, runtime}
use nubjuk_brain.Pipeline.{StiResult, SessionOpts, StiPipeline}
use nubjuk_brain.Session.State.{
  idle, audio_in, processing, done, SessionManager, warn, new_stats, transition, write_log,
}
use nubjuk_brain.Session.Methods
use nubjuk_brain.Session.Methods.{
  start_result, report_frames, cleanup, finish_start, finish_resume, await_result, finish,
}
use nubjuk_brain.Session.Quiet.{IsQuiet-report_frames}
use nubjuk_brain.Session.Settled.{IsSettled, finish_start-IsSettled, finish_resume-IsSettled}

-- `idle`, the lock free, the options dropped, and the pipeline's session cancelled
pub record IsReleased {P : Type 0} (ops : StiPipeline P) (before after : SessionManager P)
    : Type 0 where
  pub state : after.state ≡ idle
  pub locked : after.locked ≡ false
  pub opts : after.opts ≡ none
  pub pipeline : after.pipeline ≡ ops.cancel_session before.pipeline

-- What a cancel leaves behind, by whether the lock was held.
abbrev pub AfterCancel :
    {P : Type 0} → StiPipeline P → Bool → SessionManager P → SessionManager P → Type 0
AfterCancel ops true m n = IsReleased ops m n
AfterCancel ops false m n = n ≡ m

-- answered true: the lock is held for the options, and the audio may come
pub record IsStarted {P : Type 0} (ops : StiPipeline P) (now : ℕ) (opts : SessionOpts)
    (before : SessionManager P) (answer : Result Bool × SessionManager P) : Type 0 where
  pub result : answer.0 ≡ ok true
  pub state : answer.1.state ≡ audio_in
  pub locked : answer.1.locked ≡ true
  pub options : answer.1.opts ≡ some opts
  pub stats : answer.1.stats ≡ new_stats now
  pub pipeline : answer.1.pipeline ≡ (ops.start_session opts before.pipeline).1

-- What a `try_start` answers and leaves behind, by whether the lock was held.
abbrev pub AfterStart :
    {P : Type 0}
    → StiPipeline P
    → ℕ
    → SessionOpts
    → Bool
    → SessionManager P
    → Result Bool × SessionManager P
    → Type 0
AfterStart ops now opts true m r = r ≡ (ok false, m)
AfterStart ops now opts false m r = IsStarted ops now opts m r

-- What a `finish` answered by the pipeline with `r` returns or raises, and leaves behind.
abbrev pub AfterFinish :
    {P : Type 0} → StiPipeline P → Result StiResult → P → SessionManager P → Type 0
AfterFinish ops (ok result) p n =
    (n.state ≡ done) × (n.locked ≡ true) × (n.stats.intent ≡ some result.intent) × (n.pipeline ≡ p)
AfterFinish ops (raise (sti e)) p n =
    (n.state ≡ idle) × (n.locked ≡ false) × (n.opts ≡ none) × (n.pipeline ≡ ops.cancel_session p)
AfterFinish ops (raise e) p n = (n.state ≡ processing) × (n.locked ≡ true) × (n.pipeline ≡ p)

module _ {P : Type 0} (ops : StiPipeline P) where
  cancel_free :
      (reason : String) (m : SessionManager P)
      → IsSettled m
      → m.locked ≡ false
      → Methods.cancel ops reason m ≡ m
  unfolding Methods.cancel
  cancel_free reason m h l = ground arith

  pub cancel_held :
      (reason : String) (m : SessionManager P)
      → IsSettled m
      → m.locked ≡ true
      → IsReleased ops m (Methods.cancel ops reason m)
  unfolding Methods.cancel cleanup transition write_log
  cancel_held reason m h l = ground arith

  -- A cancel from any state of a settled manager: if the lock is held, the manager is then `idle`,
  -- the lock free, the options gone and the pipeline's session cancelled; otherwise nothing changes.
  pub cancel-AfterCancel :
      (reason : String) (m : SessionManager P)
      → IsSettled m
      → AfterCancel ops m.locked m (Methods.cancel ops reason m)
  cancel-AfterCancel reason m h = elim (Bool-cases m.locked) [
    | inl l ↦
        subst (λ b. AfterCancel ops b m (Methods.cancel ops reason m)) (sym l)
          (cancel_held reason m h l)
    | inr l ↦
        subst (λ b. AfterCancel ops b m (Methods.cancel ops reason m)) (sym l)
          (cancel_free reason m h l)
  ]

  pub try_start_held :
      (now : ℕ) (opts : SessionOpts) (m : SessionManager P)
      → m.locked ≡ true
      → Methods.try_start ops now opts m ≡ (ok false, m)
  unfolding Methods.try_start
  try_start_held now opts m l = ground arith

  pub try_start_free :
      (now : ℕ) (opts : SessionOpts) (m : SessionManager P)
      → ((ops.start_session opts m.pipeline).0 ≡ ok tt)
      → m.locked ≡ false
      → IsStarted ops now opts m (Methods.try_start ops now opts m)
  unfolding Methods.try_start start_result transition write_log
  try_start_free now opts m e l = ground arith

  -- A manager takes a session that its pipeline can start exactly when its lock is free: then it
  -- answers true, holds the lock for these options and is in `audio_in` with fresh statistics;
  -- otherwise it answers false and nothing changes.
  pub try_start-AfterStart :
      (now : ℕ) (opts : SessionOpts) (m : SessionManager P)
      → (ops.start_session opts m.pipeline).0 ≡ ok tt
      → AfterStart ops now opts m.locked m (Methods.try_start ops now opts m)
  try_start-AfterStart now opts m e = elim (Bool-cases m.locked) [
    | inl l ↦
        subst (λ b. AfterStart ops now opts b m (Methods.try_start ops now opts m)) (sym l)
          (try_start_held now opts m l)
    | inr l ↦
        subst (λ b. AfterStart ops now opts b m (Methods.try_start ops now opts m)) (sym l)
          (try_start_free now opts m e l)
  ]

  pipeline-report_frames :
      (n : ℕ) (m : SessionManager P) → (report_frames n m).pipeline ≡ m.pipeline
  unfolding report_frames warn write_log
  pipeline-report_frames n m = ground arith

  finish_resume-AfterFinish :
      (r : Result StiResult) (m : SessionManager P)
      → m.state ≡ processing
      → m.locked ≡ true
      → ((finish_resume ops r m).0 ≡ r) × AfterFinish ops r m.pipeline (finish_resume ops r m).1
  unfolding finish_resume cleanup transition write_log
  finish_resume-AfterFinish (ok result) m e l = ground arith
  finish_resume-AfterFinish (raise (sti x)) m e l = ground arith
  finish_resume-AfterFinish (raise cancelled_error) m e l = (refl, (e, l, refl))
  finish_resume-AfterFinish (raise (runtime x)) m e l = (refl, (e, l, refl))

  finish_start_ok :
      (n : ℕ) (m : SessionManager P)
      → m.state ≡ audio_in
      → finish_start ops n m ≡ (ok tt, transition processing "session_end" (report_frames n m))
  unfolding finish_start
  finish_start_ok n m e = ground arith

  await_result_ok :
      (m : SessionManager P) (p : P)
      → m.pipeline ≡ p
      → await_result ops (ok tt) m
        ≡ finish_resume ops
            (ops.finish_session p).0
            (record m { pipeline = (ops.finish_session p).1 })
  unfolding await_result
  await_result_ok m p e =
      ap
        (λ q.
          finish_resume ops (ops.finish_session q).0
            (record m { pipeline = (ops.finish_session q).1 }))
        e

  -- In `audio_in`, with the lock held, an undisturbed `finish` returns what the pipeline returns
  -- and raises what it raises. After a result the manager is in `done`, the lock held and the intent
  -- noted; after a `StiError` it is released and the pipeline's session cancelled; after any other
  -- exception it stays in `processing` with the lock held.
  pub finish-AfterFinish :
      (n : ℕ) (m : SessionManager P)
      → m.state ≡ audio_in
      → m.locked ≡ true
      → ((finish ops n m).0 ≡ (ops.finish_session m.pipeline).0)
        × AfterFinish ops
            (ops.finish_session m.pipeline).0
            (ops.finish_session m.pipeline).1
            (finish ops n m).1
  unfolding finish
  finish-AfterFinish n m e l =
      let m₁ = transition processing "session_end" (report_frames n m) in
      let (r, p) = ops.finish_session m.pipeline in
      rw
        (
          finish_start_ok n m e,
          await_result_ok m₁ m.pipeline (unfold transition write_log in pipeline-report_frames n m),
        )
        (finish_resume-AfterFinish r (record m₁ { pipeline = p })
          (unfold transition write_log in refl)
          (unfold transition write_log in (IsQuiet-report_frames n m).locked ∙ l))

  pub finish-IsSettled :
      (n : ℕ) (m : SessionManager P)
      → m.state ≡ audio_in
      → IsSettled m
      → IsSettled (finish ops n m).1
  unfolding finish await_result
  finish-IsSettled n m e h =
      let m₁ = transition processing "session_end" (report_frames n m) in
      let begun : IsSettled m₁ =
        subst (λ x. IsSettled x.1) (finish_start_ok n m e) (finish_start-IsSettled ops n m h) in
      rw (finish_start_ok n m e) (
        finish_resume-IsSettled ops (ops.finish_session m₁.pipeline).0
          (record m₁ { pipeline = (ops.finish_session m₁.pipeline).1 })
          (unfold transition write_log in refl)
          (record {
            held = begun.held;
            options = begun.options;
            not_cancelled = begun.not_cancelled;
            traced = begun.traced;
          }))
