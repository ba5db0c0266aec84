-- ===== src/Session/Schedule.antt =====
-- brain/session.py: sequences of calls on the manager, also those made while `finish` awaits
use nubjuk_brain.Prelude.{ℕ, ◌+◌, ◌-◌, ltb, ◌≡◌, String, List, [], ◌∷◌, if◌then◌else◌}
use nubjuk_brain.Errors.{Result, ok, raise}
use nubjuk_brain.Pipeline.{Bytes, StiResult, SessionOpts, StiPipeline}
use nubjuk_brain.Session.State.{SessionManager}
use nubjuk_brain.Session.Frames
use nubjuk_brain.Session.Methods
use nubjuk_brain.Session.Methods.{finish_start, finish_resume}

-- A call on the manager. `resume` is the return of the pipeline's `finish_session` to a `finish`
-- that awaits it, with the pipeline's state at that time. `cancel` leaves such a `finish` as it is;
-- `interrupt` is the one of `_cancel_finish_on_disconnect`, where `asyncio.CancelledError` at its
-- await ends the `finish`, and the manager is cancelled behind it. The await in `_cleanup` is no
-- call of its own: it is taken to be over at once, without an exception.
pub data Call (P : Type 0) : Type 0 where
  try_start : ℕ → SessionOpts → Call P
  feed_audio : Bytes → Call P
  finish : ℕ → Call P
  resume : Result StiResult → P → Call P
  complete : ℕ → String → Call P
  cancel : String → Call P
  interrupt : String → Call P

-- the manager, and how many calls of `finish` await the pipeline
pub record System (P : Type 0) : Type 0 where
  pub manager : SessionManager P
  pub pending : ℕ

-- one more waits for a `finish` that gets to its await
abbrev pub waits {ℓ} : {A : Type ℓ} → Result A → ℕ
waits (ok _) = 1
waits (raise _) = 0

module _ {P : Type 0} (ops : StiPipeline P) where
  unfoldable pub perform : Call P → System P → System P
  perform (try_start now opts) s = record s {
    manager = (Methods.try_start ops now opts s.manager).1;
  }
  perform (feed_audio frame) s = record s { manager = (Frames.feed_audio ops frame s.manager).1 }
  perform (finish frames_reported) s =
      let (r, m) = finish_start ops frames_reported s.manager in
      record { manager = m; pending = s.pending + waits r }
  perform (resume r p) s =
      if ltb 0 s.pending
      then record {
        manager = (finish_resume ops r (record s.manager { pipeline = p })).1;
        pending = s.pending - 1;
      }
      else s
  perform (complete now reason) s = record s { manager = Methods.complete ops now reason s.manager }
  perform (cancel reason) s = record s { manager = Methods.cancel ops reason s.manager }
  perform (interrupt reason) s = record {
    manager = Methods.cancel ops reason s.manager;
    pending = s.pending - 1;
  }

  unfoldable pub run : List (Call P) → System P → System P
  run [] s = s
  run (c ∷ calls) s = run calls (perform c s)

  -- no `cancel` while a `finish` awaits
  abbrev pub IsTimely : Call P → System P → Type 0
  IsTimely (Call.cancel reason) s = s.pending ≡ 0
  IsTimely _ s = Unit

  abbrev pub IsOrderly : List (Call P) → System P → Type 0
  IsOrderly [] s = Unit
  IsOrderly (c ∷ calls) s = IsTimely c s × IsOrderly calls (perform c s)
