-- ===== src/Server/Report.antt =====
-- brain/ws_server.py: the lines that the handler logs of a session's answers and of disconnects, without
-- the code and the reason that the socket tells
pub mod Told
use nubjuk_brain.Prelude.{
  ℕ, String, Bool, true, false, ◌||◌, Option, none, some, List, [], ◌∷◌, Text, if◌then◌else◌,
}
use nubjuk_brain.Errors.{StiError, Result, ok, raise, sti, cancelled_error, runtime}
use nubjuk_brain.Pipeline.{Bytes, Float, StiResult, StiPipeline}
use nubjuk_brain.Session
use nubjuk_brain.Session.{logged_id}
use nubjuk_brain.Server.{
  Server, Connection, Raw, ClientMessage, Event, is_waiting, is_full, disconnect, binary,
  unsupported, invalid, message, session_start, session_end, session_cancel, received, unsent,
  worked, looked,
}

pub data ReportLine : Type 0 where
  ws_disconnect : String → String → Bool → ReportLine
  session_busy_send : String → ReportLine
  intent_send : String → Text → Float → Option Text → ℕ → ℕ → ReportLine

-- `_log_intent_send`
abbrev pub log_intent_send : String → StiResult → ReportLine
log_intent_send id r = intent_send id r.intent r.confidence r.raw_text r.asr_ms r.slm_ms

-- `_log_session_busy`
abbrev pub log_session_busy : String → ReportLine
log_session_busy id = session_busy_send id

-- `_log_ws_disconnect`
abbrev pub log_ws_disconnect : String → String → Bool → ReportLine
log_ws_disconnect id source started = ws_disconnect id source started

-- the line of `except WebSocketDisconnect`
unfoldable pub log_caught : Connection → List ReportLine
log_caught c = log_ws_disconnect c.correlation_id "websocket_disconnect_exception" c.started ∷ []

-- the answer to a `session_start`, sent or not
unfoldable pub report_start : String → Result Bool → List ReportLine
report_start id (ok true) = []
report_start id (ok false) = log_session_busy id ∷ []
report_start id (raise e) = []

unfoldable pub report_start_unsent : Result Bool → Connection → List ReportLine
report_start_unsent (ok true) c = log_caught (record c { started = true })
report_start_unsent (ok false) c = log_session_busy c.correlation_id ∷ log_caught c
report_start_unsent (raise e) c = []

unfoldable pub report_frame_unsent : ℕ → Option StiError → String → Connection → List ReportLine
report_frame_unsent maxsize (some e) id c = log_caught (record c { correlation_id = id })
report_frame_unsent maxsize none id c =
    if is_full maxsize c.audio_queue then log_caught (record c { correlation_id = id }) else []

-- behind an undisturbed `finish`
unfoldable pub report_end : Bool → String → Result StiResult → Connection → List ReportLine
report_end delivered id (ok result) c = log_intent_send id result ∷ []
report_end true id (raise (sti e)) c = []
report_end false id (raise (sti e)) c = log_caught c
report_end delivered id (raise cancelled_error) c = []
report_end delivered id (raise (runtime x)) c = []

module _ {P : Type 0} (ops : StiPipeline P) where
  unfoldable pub report_round : ℕ → Raw → Server P → List ReportLine
  report_round now disconnect s =
      log_ws_disconnect s.connection.correlation_id "receive_disconnect" s.connection.started ∷ []
  report_round now (message (session_start opts)) s =
      report_start opts.correlation_id (Session.try_start ops now opts s.manager).0
  report_round now (message (session_end id n)) s = []
  report_round now (message (session_cancel id)) s = []
  report_round now (binary frame) s = []
  report_round now unsupported s = []
  report_round now (invalid id text) s = []

  unfoldable pub report_unsent : ℕ → ℕ → Raw → Server P → List ReportLine
  report_unsent maxsize now disconnect s = report_round now disconnect s
  report_unsent maxsize now (message (session_start opts)) s =
      report_start_unsent (Session.try_start ops now opts s.manager).0
        (record s.connection { correlation_id = opts.correlation_id })
  report_unsent maxsize now (message (session_end id n)) s =
      if s.connection.started then [] else log_caught s.connection
  report_unsent maxsize now (message (session_cancel id)) s =
      if s.connection.started then [] else log_caught s.connection
  report_unsent maxsize now (binary frame) s =
      if s.connection.started
      then report_frame_unsent maxsize s.connection.audio_error (logged_id s.manager.opts)
          s.connection
      else log_caught s.connection
  report_unsent maxsize now unsupported s = log_caught s.connection
  report_unsent maxsize now (invalid id text) s = log_caught s.connection

  unfoldable pub report_end_session :
      Bool → String → ℕ → Option StiError → List Bytes → Server P → List ReportLine
  report_end_session true id n (some e) queue s = []
  report_end_session false id n (some e) queue s = log_caught s.connection
  report_end_session delivered id n none [] s =
      report_end delivered id (Session.finish ops n s.manager).0 s.connection
  report_end_session delivered id n none (frame ∷ queue) s = []

  unfoldable pub report_look : Bool → Option (String × ℕ) → Server P → List ReportLine
  report_look delivered none s = []
  report_look delivered (some (id, n)) s =
      report_end_session delivered id n s.connection.audio_error s.connection.audio_queue s

  -- the lines of a step
  unfoldable pub report : ℕ → Event → Server P → List ReportLine
  report maxsize (received now raw) s =
      if s.connection.returned || is_waiting s.connection.waiting
      then []
      else report_round now raw s
  report maxsize (unsent now raw) s =
      if s.connection.returned || is_waiting s.connection.waiting
      then []
      else report_unsent maxsize now raw s
  report maxsize worked s = []
  report maxsize (looked now delivered) s =
      if s.connection.returned then [] else report_look delivered s.connection.waiting s
