-- ===== src/Session/Methods.antt =====
-- brain/session.py: the methods of the manager. A method takes the manager and returns it beside
-- its result. `finish` awaits the pipeline, so it is two halves, around the await, and their
-- composition.
use Prim.Native.String.{◌++◌ as str_append}
use nubjuk_brain.Prelude.{ℕ, String, Bool, true, false, not, ◌&&◌, none, some, ◌==◌, if◌then◌else◌}
use nubjuk_brain.Errors.{Result, ok, raise, sti, sti_error}
use nubjuk_brain.Pipeline.{StiResult, SessionOpts, StiPipeline}
use nubjuk_brain.Session.State.{
  idle, audio_in, processing, done, cancelled, value, ◌is◌, frame_count_mismatch, new_stats,
  SessionManager, transition, warn, log_session_done,
}

-- `try_start` from the await of `start_session` on
unfoldable pub start_result :
    {P : Type 0} → Result (Unit {0}) → SessionManager P → Result Bool × SessionManager P
start_result (ok _) m = (ok true, transition audio_in "session_start" m)
start_result (raise e) m = (raise e, m)

-- `finish`: the number of frames that the client reports, and the warning if it is another
unfoldable pub report_frames : {P : Type 0} → ℕ → SessionManager P → SessionManager P
report_frames frames_reported m =
    let m₁ = record m { stats = record m.stats { frames_reported = some frames_reported } } in
    if not (frames_reported == m₁.stats.frames_observed)
    then warn (frame_count_mismatch frames_reported m₁.stats.frames_observed) m₁
    else m₁

module _ {P : Type 0} (ops : StiPipeline P) where
  unfoldable pub try_start : ℕ → SessionOpts → SessionManager P → Result Bool × SessionManager P
  try_start now opts m =
      if m.locked
      then (ok false, m)
      else let (r, p) = ops.start_session opts m.pipeline in
        start_result r
          (record m { pipeline = p; locked = true; opts = some opts; stats = new_stats now })

  unfoldable pub cleanup : String → SessionManager P → SessionManager P
  cleanup reason m =
      let m₁ = record m { pipeline = ops.cancel_session m.pipeline } in
      let m₂ = if not (m₁.state is idle) then transition idle reason m₁ else m₁ in
      record m₂ { opts = none; locked = false }

  -- `finish` up to `await self._pipeline.finish_session()`
  unfoldable pub finish_start : ℕ → SessionManager P → Result (Unit {0}) × SessionManager P
  finish_start frames_reported m =
      if not (m.state is audio_in)
      then (
        raise
            (sti (sti_error "internal" (some (str_append "cannot finish from " (value m.state))))),
        m,
      )
      else (ok tt, transition processing "session_end" (report_frames frames_reported m))

  -- `finish` from the await on: `r` is what the pipeline returned or raised, and `m` the manager
  -- as it then is
  unfoldable pub finish_resume :
      Result StiResult → SessionManager P → Result StiResult × SessionManager P
  finish_resume (ok result) m =
      if m.state is cancelled
      then (raise (sti (sti_error "internal" (some "session cancelled during processing"))), m)
      else (
        ok result,
        transition done "pipeline_result"
            (record m { stats = record m.stats { intent = some result.intent } }),
      )
  finish_resume (raise (sti e)) m =
      if not (m.state is cancelled)
      then (raise (sti e), cleanup "cleanup" (transition cancelled "pipeline_error" m))
      else (raise (sti e), m)
  finish_resume (raise e) m = (raise e, m)

  -- the await, when nothing runs during it
  unfoldable pub await_result :
      Result (Unit {0}) → SessionManager P → Result StiResult × SessionManager P
  await_result (ok _) m =
      let (r, p) = ops.finish_session m.pipeline in finish_resume r (record m { pipeline = p })
  await_result (raise e) m = (raise e, m)

  -- `finish` when nothing runs during the await
  unfoldable pub finish : ℕ → SessionManager P → Result StiResult × SessionManager P
  finish frames_reported m = let (r, m₁) = finish_start frames_reported m in await_result r m₁

  unfoldable pub complete : ℕ → String → SessionManager P → SessionManager P
  complete now reason m = if m.state is done then cleanup reason (log_session_done now m) else m

  unfoldable pub cancel : String → SessionManager P → SessionManager P
  cancel reason m =
      if m.state is idle && not m.locked
      then m
      else let m₁ = if not (m.state is cancelled) then transition cancelled reason m else m in
        cleanup reason m₁
