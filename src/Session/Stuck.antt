-- ===== src/Session/Stuck.antt =====
-- brain/session.py: `finish` when the pipeline raises a `RuntimeError`
use nubjuk_brain.Prelude.{ℕ, String, ◌≡◌, refl, true, false, List, [], ◌∷◌, arith, All, subst, ◌∙◌}
use nubjuk_brain.Errors.{ok, raise, runtime}
use nubjuk_brain.Pipeline.{SessionOpts, StiPipeline}
use nubjuk_brain.Session.State.{audio_in, processing, SessionManager}
use nubjuk_brain.Session.Methods
use nubjuk_brain.Session.Methods.{finish_start, finish}
use nubjuk_brain.Session.Quiet.{IsQuiet-feed_audio}
use nubjuk_brain.Session.Schedule.{Call, System, perform, run}
use nubjuk_brain.Session.Outcomes.{AfterFinish, finish-AfterFinish}

abbrev pub IsNoCancel : {P : Type 0} → Call P → Type 0
IsNoCancel (Call.cancel reason) = ⊥
IsNoCancel (Call.interrupt reason) = ⊥
IsNoCancel _ = Unit

-- in `processing`, the lock held, and no `finish` waiting
pub record IsStuck {P : Type 0} (s : System P) : Type 0 where
  pub state : s.manager.state ≡ processing
  pub locked : s.manager.locked ≡ true
  pub pending : s.pending ≡ 0

module _ {P : Type 0} (ops : StiPipeline P) where
  perform-IsStuck :
      (c : Call P) (s : System P) → IsNoCancel c → IsStuck s → IsStuck (perform ops c s)
  unfolding perform Methods.try_start Methods.complete finish_start
  perform-IsStuck (Call.try_start now opts) s k h = ground arith
  perform-IsStuck (Call.feed_audio frame) s k h = record {
    state = (IsQuiet-feed_audio ops frame s.manager).state ∙ h.state;
    locked = (IsQuiet-feed_audio ops frame s.manager).locked ∙ h.locked;
    pending = h.pending;
  }
  perform-IsStuck (Call.finish n) s k h = ground arith
  perform-IsStuck (Call.resume r p) s k h = ground arith
  perform-IsStuck (Call.complete now reason) s k h = ground arith
  perform-IsStuck (Call.cancel reason) s k h = absurd k
  perform-IsStuck (Call.interrupt reason) s k h = absurd k

  run-IsStuck :
      (calls : List (Call P)) (s : System P)
      → All IsNoCancel calls
      → IsStuck s
      → IsStuck (run ops calls s)
  unfolding run
  run-IsStuck [] s k h = h
  run-IsStuck (c ∷ calls) s k h =
      run-IsStuck calls (perform ops c s) k.1 (perform-IsStuck c s k.0 h)

  runtime-IsStuck :
      (n : ℕ) (m : SessionManager P) {x : String}
      → m.state ≡ audio_in
      → m.locked ≡ true
      → (ops.finish_session m.pipeline).0 ≡ raise (runtime x)
      → IsStuck (record { manager = (finish ops n m).1; pending = 0 })
  runtime-IsStuck n m {x} e l f =
      let after : AfterFinish ops (raise (runtime x)) (ops.finish_session m.pipeline).1
          (finish ops n m).1 =
        subst (λ r. AfterFinish ops r (ops.finish_session m.pipeline).1 (finish ops n m).1) f
          (finish-AfterFinish ops n m e l).1 in
      record { state = after.0; locked = after.1; pending = refl }

  -- If the pipeline's `finish_session` raises a `RuntimeError`, a `finish` from
  -- `audio_in` with the lock held leaves the lock held, and after any calls without a cancel every
  -- `try_start` is answered false.
  pub finish_runtime_blocks :
      (n : ℕ) (m : SessionManager P) {x : String}
      → m.state ≡ audio_in
      → m.locked ≡ true
      → (ops.finish_session m.pipeline).0 ≡ raise (runtime x)
      → (calls : List (Call P)) → All IsNoCancel calls
      → (now : ℕ) (opts : SessionOpts)
      → (Methods.try_start ops now opts
          (run ops calls (record { manager = (finish ops n m).1; pending = 0 })).manager).0
        ≡ ok false
  unfolding Methods.try_start
  finish_runtime_blocks n m e l f calls k now opts =
      let s : System P = record { manager = (finish ops n m).1; pending = 0 } in
      let stuck = run-IsStuck calls s k (runtime-IsStuck n m e l f) in ground arith
