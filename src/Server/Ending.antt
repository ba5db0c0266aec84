-- ===== src/Server/Ending.antt =====
-- brain/ws_server.py: the end of a session, once its audio has been fed
use nubjuk_brain.Prelude.{ℕ, String, Bool, true, false, Option, none, some, List, [], ◌∷◌}
use nubjuk_brain.Errors.{StiError, Result, ok, raise, sti, cancelled_error, runtime}
use nubjuk_brain.Pipeline.{Bytes, StiResult, StiPipeline}
use nubjuk_brain.Session
use nubjuk_brain.Session.{SessionManager, logged_id}
use nubjuk_brain.Server.State.{intent, Server, send_json, send_error, leave}
use nubjuk_brain.Server.Handler.{caught}

module _ {P : Type 0} (ops : StiPipeline P) where
  -- `_finish_session_or_cancel_on_error`, by what an undisturbed `finish` returned or raised
  unfoldable pub finish_or_cancel :
      Result StiResult → SessionManager P → Result (Option StiResult) × SessionManager P
  finish_or_cancel (ok result) m = (ok (some result), m)
  finish_or_cancel (raise (sti e)) m = (raise (sti e), Session.cancel ops "pipeline_error" m)
  finish_or_cancel (raise cancelled_error) m = (ok none, Session.cancel ops "finish_cancelled" m)
  finish_or_cancel (raise (runtime x)) m = (raise (runtime x), m)

  -- the answer to the client; `delivered` is whether it could be sent
  unfoldable pub after_finish : ℕ → Bool → String → Result (Option StiResult) → Server P → Server P
  after_finish now true id (ok (some result)) s = record {
    connection = leave (send_json (intent id result) s.connection);
    manager = Session.complete ops now "intent_sent" s.manager;
  }
  after_finish now false id (ok (some result)) s = record {
    connection = leave s.connection;
    manager = Session.cancel ops "websocket_disconnect" s.manager;
  }
  after_finish now delivered id (ok none) s = record s { connection = leave s.connection }
  after_finish now true id (raise (sti e)) s = record s {
    connection = leave (send_error id e s.connection);
  }
  after_finish now false id (raise (sti e)) s = caught ops s
  after_finish now delivered id (raise cancelled_error) s = record s {
    connection = leave s.connection;
  }
  after_finish now delivered id (raise (runtime x)) s = record s { connection = leave s.connection }

  unfoldable pub answer_end : ℕ → Bool → String → Result StiResult → Server P → Server P
  answer_end now delivered id r s =
      let (answer, m) = finish_or_cancel r s.manager in
      after_finish now delivered id answer (record s { manager = m })

  -- behind `_wait_for_audio_queue_drained`: it raises the worker's error, or waits while frames are left
  unfoldable pub end_session :
      ℕ → Bool → String → ℕ → Option StiError → List Bytes → Server P → Server P
  end_session now true id n (some e) queue s = record s {
    connection = leave (send_error id e s.connection);
  }
  end_session now false id n (some e) queue s = caught ops s
  end_session now delivered id n none [] s =
      let (r, m) = Session.finish ops n s.manager in
      answer_end now delivered id r (record s { manager = m })
  end_session now delivered id n none (frame ∷ queue) s = s

  unfoldable pub drained : ℕ → Bool → Option (String × ℕ) → Server P → Server P
  drained now delivered none s = s
  drained now delivered (some (id, n)) s =
      end_session now delivered id n s.connection.audio_error s.connection.audio_queue s
