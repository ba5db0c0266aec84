-- ===== src/Server/Leaks/Ways.antt =====
-- brain/ws_server.py: the ways out of the handler, and whether they leave the lock held
use nubjuk_brain.Prelude.{
  ℕ, ◌≡◌, ◌∙◌, ap, subst, String, Bool, true, false, Option, none, some, arith, if-intro,
  Bool-cases, inl, inr,
}
use nubjuk_brain.Errors.{StiError, Result, ok, raise, sti, cancelled_error, runtime}
use nubjuk_brain.Pipeline.{StiResult, StiPipeline}
use nubjuk_brain.Session
use nubjuk_brain.Session.{
  SessionManager, idle, audio_in, done, ◌is◌, cleanup, transition, write_log, log_session_done,
}
use nubjuk_brain.Session.Settled.{IsSettled}
use nubjuk_brain.Session.Outcomes.{
  cancel-AfterCancel, cancel_held, AfterFinish, finish-AfterFinish, finish-IsSettled,
  try_start_held, try_start_free,
}
use nubjuk_brain.Server.{
  Server, Raw, Event, disconnect, binary, unsupported, invalid, message, session_start, session_end,
  session_cancel, received, unsent, worked, looked, caught,
}

-- The connection has a session that takes audio, and its handler has not returned.
pub record HasSession {P : Type 0} (s : Server P) : Type 0 where
  pub started : s.connection.started ≡ true
  pub returned : s.connection.returned ≡ false
  pub state : s.manager.state ≡ audio_in
  pub locked : s.manager.locked ≡ true
  pub settled : IsSettled s.manager

-- whether what is received leaves the lock held: a second `session_start` does
abbrev pub is_start : Raw → Bool
is_start disconnect = false
is_start (binary frame) = false
is_start unsupported = false
is_start (invalid id text) = false
is_start (message (session_start opts)) = true
is_start (message (session_end id n)) = false
is_start (message (session_cancel id)) = false

-- whether the answer to a `session_end` leaves the lock held: the worker's error that is sent does, and
-- an exception of the pipeline that is not a `StiError` or a cancellation
abbrev pub forgets : Bool → Option StiError → Result StiResult → Bool
forgets delivered (some e) r = delivered
forgets delivered none (ok result) = false
forgets delivered none (raise (sti e)) = false
forgets delivered none (raise cancelled_error) = false
forgets delivered none (raise (runtime x)) = true

-- whether a step by which the handler returns leaves the lock held
abbrev pub leaks : {P : Type 0} → StiPipeline P → Event → Server P → Bool
leaks ops (received now raw) s = is_start raw
leaks ops (unsent now raw) s = false
leaks ops worked s = false
leaks ops (looked now delivered) s =
    forgets delivered s.connection.audio_error (ops.finish_session s.manager.pipeline).0

-- a handler that has not returned has left nothing
pub still : {returned : Bool} {locked b : Bool} → returned ≡ false → returned ≡ true → locked ≡ b
still r e = absurd (ground arith)

module _ {P : Type 0} (ops : StiPipeline P) (maxsize : ℕ) where
  -- a handler that has returned left the lock as told
  abbrev pub Leaves : Bool → Server P → Type 0
  Leaves b s = s.connection.returned ≡ true → s.manager.locked ≡ b

  pub cancel_frees :
      (reason : String) (m : SessionManager P)
      → IsSettled m
      → (Session.cancel ops reason m).locked ≡ false
  cancel_frees reason m h = elim (Bool-cases m.locked) [
    | inl l ↦ (cancel_held ops reason m h l).locked
    | inr l ↦
        let same : Session.cancel ops reason m ≡ m =
          subst (λ b. Session.Outcomes.AfterCancel ops b m (Session.cancel ops reason m)) l
            (cancel-AfterCancel ops reason m h) in
        ap (λ x. x.locked) same ∙ l
  ]

  pub caught_frees :
      (s : Server P)
      → s.connection.started ≡ true
      → IsSettled s.manager
      → Leaves false (caught ops s)
  unfolding caught
  caught_frees s a h =
      if-intro (Leaves false) s.connection.started
        (λ _ _. cancel_frees "websocket_disconnect" s.manager h) (λ b. absurd (ground arith))
