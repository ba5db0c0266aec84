-- ===== src/Server/Handler.antt =====
-- brain/ws_server.py: one round of the handler of a connection
use nubjuk_brain.Prelude.{
  ℕ, String, Bool, true, false, Option, none, some, [], ◌∷◌, ◌++◌, if◌then◌else◌,
}
use nubjuk_brain.Errors.{StiError, Result, ok, raise}
use nubjuk_brain.Pipeline.{Bytes, SessionOpts, StiPipeline}
use nubjuk_brain.Session
use nubjuk_brain.Session.{SessionManager, logged_id}
use nubjuk_brain.Server.State.{
  ClientMessage, session_start, session_end, session_cancel, Raw, disconnect, binary, unsupported,
  invalid, message, ack, busy, Connection, Server, is_full, queue_full, send_json, send_error,
  send_schema_invalid, leave,
}

module _ {P : Type 0} (ops : StiPipeline P) where
  -- a frame that cannot be taken ends the session
  unfoldable pub refuse_frame : StiError → Server P → Server P
  refuse_frame e s = record {
    connection = leave (
        send_error (logged_id s.manager.opts) e
          (record s.connection { correlation_id = logged_id s.manager.opts }));
    manager = Session.cancel ops "pipeline_error" s.manager;
  }

  -- `_raise_audio_worker_error` and `_enqueue_audio_frame`
  unfoldable pub enqueue : ℕ → Bytes → Option StiError → Server P → Server P
  enqueue maxsize frame (some e) s = refuse_frame e s
  enqueue maxsize frame none s =
      if is_full maxsize s.connection.audio_queue
      then refuse_frame (queue_full maxsize) s
      else record s {
        connection = record s.connection { audio_queue = s.connection.audio_queue ++ frame ∷ [] };
      }

  -- the answer to a `session_start`, by what `try_start` returns
  unfoldable pub answer_start : String → Result Bool → Connection → Connection
  answer_start id (ok true) c = send_json (ack id) (record c { started = true })
  answer_start id (ok false) c = leave (send_json (busy id) c)
  answer_start id (raise e) c = leave c

  unfoldable pub on_start : ℕ → SessionOpts → Server P → Server P
  on_start now opts s =
      let (r, m) = Session.try_start ops now opts s.manager in
      let c = record s.connection { correlation_id = opts.correlation_id } in
      record { connection = answer_start opts.correlation_id r c; manager = m }

  unfoldable pub on_message : ℕ → ClientMessage → Server P → Server P
  on_message now (session_start opts) s = on_start now opts s
  on_message now (session_end id n) s =
      if s.connection.started
      then record s { connection = record s.connection { waiting = some (id, n) } }
      else record s { connection = send_schema_invalid id "session_start required" s.connection }
  on_message now (session_cancel id) s =
      if s.connection.started
      then record {
        connection = leave s.connection;
        manager = Session.cancel ops "session_cancel" s.manager;
      }
      else record s { connection = send_schema_invalid id "session_start required" s.connection }

  -- one round of the handler's loop
  unfoldable pub receive : ℕ → ℕ → Raw → Server P → Server P
  receive maxsize now disconnect s =
      if s.connection.started
      then record {
        connection = leave s.connection;
        manager = Session.cancel ops "websocket_disconnect" s.manager;
      }
      else record s { connection = leave s.connection }
  receive maxsize now (binary frame) s =
      if s.connection.started then enqueue maxsize frame s.connection.audio_error s else record s {
        connection = send_schema_invalid "" "binary frame before session_start" s.connection;
      }
  receive maxsize now unsupported s = record s {
    connection = send_schema_invalid "" "unsupported websocket message" s.connection;
  }
  receive maxsize now (invalid id text) s = record s {
    connection = send_schema_invalid id text s.connection;
  }
  receive maxsize now (message m) s = on_message now m s

  -- `except WebSocketDisconnect`, for a message that could not be sent
  unfoldable pub caught : Server P → Server P
  caught s =
      if s.connection.started
      then record {
        connection = leave s.connection;
        manager = Session.cancel ops "websocket_disconnect" s.manager;
      }
      else record s { connection = leave s.connection }

  -- `enqueue`, where the error could not be sent
  unfoldable pub enqueue_unsent : ℕ → Bytes → Option StiError → Server P → Server P
  enqueue_unsent maxsize frame (some e) s =
      caught (record s {
        connection = record s.connection { correlation_id = logged_id s.manager.opts };
      })
  enqueue_unsent maxsize frame none s =
      if is_full maxsize s.connection.audio_queue
      then caught (record s {
        connection = record s.connection { correlation_id = logged_id s.manager.opts };
      })
      else enqueue maxsize frame none s

  -- by what `try_start` returns, where neither the ack nor the busy message could be sent
  unfoldable pub start_unsent : Result Bool → Server P → Server P
  start_unsent (ok true) s =
      caught (record s { connection = record s.connection { started = true } })
  start_unsent (ok false) s = caught s
  start_unsent (raise e) s = record s { connection = leave s.connection }

  unfoldable pub on_message_unsent : ℕ → ClientMessage → Server P → Server P
  on_message_unsent now (session_start opts) s =
      let (r, m) = Session.try_start ops now opts s.manager in
      let c = record s.connection { correlation_id = opts.correlation_id } in
      start_unsent r (record { connection = c; manager = m })
  on_message_unsent now (session_end id n) s =
      if s.connection.started then on_message now (session_end id n) s else caught s
  on_message_unsent now (session_cancel id) s =
      if s.connection.started then on_message now (session_cancel id) s else caught s

  -- One round of the handler's loop, where the network takes no message: a `send_json` raises
  -- `WebSocketDisconnect`.
  unfoldable pub receive_unsent : ℕ → ℕ → Raw → Server P → Server P
  receive_unsent maxsize now disconnect s = receive maxsize now disconnect s
  receive_unsent maxsize now (binary frame) s =
      if s.connection.started
      then enqueue_unsent maxsize frame s.connection.audio_error s
      else caught s
  receive_unsent maxsize now unsupported s = caught s
  receive_unsent maxsize now (invalid id text) s = caught s
  receive_unsent maxsize now (message m) s = on_message_unsent now m s
