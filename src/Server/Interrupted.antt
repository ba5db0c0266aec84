-- ===== src/Server/Interrupted.antt =====
-- brain/ws_server.py: `_cancel_finish_on_disconnect` and the handler whose `finish` it interrupts
use nubjuk_brain.Prelude.{ℕ, ◌≡◌, ap, String, true, false, Option, none, some, List, [], ◌∷◌}
use nubjuk_brain.Errors.{ok}
use nubjuk_brain.Pipeline.{SessionOpts, StiPipeline}
use nubjuk_brain.Session
use nubjuk_brain.Session.{
  SessionManager, idle, audio_in, cleanup, transition, write_log, start_result,
}
use nubjuk_brain.Session.Settled.{IsSettled, Starts, try_start-IsSettled, cancel-IsSettled}
use nubjuk_brain.Session.Outcomes.{cancel_held, try_start_free}
use nubjuk_brain.Server.{
  Server, Connection, Raw, disconnect, binary, message, unsupported, invalid, session_start,
  session_end, session_cancel, leave,
}

-- What ends the watcher's wait: `reason` of `_wait_for_disconnect_or_cancel`.
pub data Interruption : Type 0 where
  disconnected : Interruption
  session_cancelled : Interruption

abbrev pub reason_of : Interruption → String
reason_of disconnected = "websocket_disconnect"
reason_of session_cancelled = "session_cancel"

-- `_wait_for_disconnect_or_cancel`, on what is received while `finish` waits; none if it waits on
unfoldable pub wait_for_disconnect_or_cancel : List Raw → Option Interruption
wait_for_disconnect_or_cancel [] = none
wait_for_disconnect_or_cancel (disconnect ∷ rest) = some disconnected
wait_for_disconnect_or_cancel (binary frame ∷ rest) = wait_for_disconnect_or_cancel rest
wait_for_disconnect_or_cancel (message (session_cancel id) ∷ rest) = some session_cancelled
wait_for_disconnect_or_cancel (message (session_start opts) ∷ rest) =
    wait_for_disconnect_or_cancel rest
wait_for_disconnect_or_cancel (message (session_end id n) ∷ rest) =
    wait_for_disconnect_or_cancel rest
wait_for_disconnect_or_cancel (unsupported ∷ rest) = wait_for_disconnect_or_cancel rest
wait_for_disconnect_or_cancel (invalid id text ∷ rest) = wait_for_disconnect_or_cancel rest

module _ {P : Type 0} (ops : StiPipeline P) where
  -- the watcher, when `finish` is not done: it cancels the task, and the manager's session
  unfoldable pub interrupt : Interruption → SessionManager P → SessionManager P
  interrupt i m = Session.cancel ops (reason_of i) m

  -- the handler, when `asyncio.CancelledError` reaches it: it cancels the manager's session, and returns
  unfoldable pub unwind : Server P → Server P
  unwind s = record {
    connection = leave s.connection;
    manager = Session.cancel ops "finish_cancelled" s.manager;
  }

module _ {P : Type 0} (ops : StiPipeline P) (starts : Starts ops) where
  -- While a `finish` is interrupted, another connection may start a session between the watcher's
  -- cancel and the handler's: for a settled manager with its lock held, and a pipeline that can start
  -- sessions, that start is answered true, and the handler's cancel then takes the session from it:
  -- the manager is `idle` and the lock free, though the other connection was told that it has it.
  pub unwind_steals :
      (i : Interruption) (now : ℕ) (opts : SessionOpts) (c : Connection) (m : SessionManager P)
      → IsSettled m
      → m.locked ≡ true
      → ((Session.try_start ops now opts (interrupt ops i m)).0 ≡ ok true)
        × ((unwind ops (record {
          connection = c;
          manager = (Session.try_start ops now opts (interrupt ops i m)).1;
        })).manager.state
            ≡ idle)
        × ((unwind ops (record {
          connection = c;
          manager = (Session.try_start ops now opts (interrupt ops i m)).1;
        })).manager.locked
            ≡ false)
  unfolding interrupt unwind
  unwind_steals i now opts c m h l =
      let m₁ = Session.cancel ops (reason_of i) m in
      let released = cancel_held ops (reason_of i) m h l in
      let started =
        try_start_free ops now opts m₁ (ap (λ x. x.0) (starts opts m₁.pipeline).1)
          released.locked in
      let settled =
        try_start-IsSettled ops starts now opts m₁ (cancel-IsSettled ops (reason_of i) m h) in
      let ended =
        cancel_held ops "finish_cancelled" (Session.try_start ops now opts m₁).1 settled
          started.locked in
      (started.result, ended.state, ended.locked)
