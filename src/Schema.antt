-- ===== src/Schema.antt =====
-- brain/schema.py: the messages of the protocol. `json.loads`, and the validation and the dump of
-- pydantic, are parameters; a field that can only have one value is left out of a message.
pub mod Answers
pub mod Declared
pub mod Sent
use nubjuk_brain.Prelude.{ℕ, ◌≡◌, String, Bool, Option, none, some, Text, str_eq, if◌then◌else◌}
use nubjuk_brain.Json.{Json, str, obj, Fields, field, end}
use nubjuk_brain.Pipeline.{Slots, Float, StiResult, SessionOpts}
use nubjuk_brain.Server
use nubjuk_brain.Server.{Raw, Reply, safe_error_code}

pub record SessionStartMessage : Type 0 where
  pub device_id : String
  pub correlation_id : String
  pub language : String
  pub max_utterance_ms : ℕ

pub record SessionEndMessage : Type 0 where
  pub correlation_id : String
  pub audio_frames_sent : ℕ

pub record SessionCancelMessage : Type 0 where
  pub correlation_id : String
  pub reason : String

pub data ClientMessage : Type 0 where
  session_start : SessionStartMessage → ClientMessage
  session_end : SessionEndMessage → ClientMessage
  session_cancel : SessionCancelMessage → ClientMessage

pub data ErrorCode : Type 0 where
  asr_failed slm_failed schema_invalid timeout internal : ErrorCode

abbrev pub code_text : ErrorCode → String
code_text asr_failed = "asr_failed"
code_text slm_failed = "slm_failed"
code_text schema_invalid = "schema_invalid"
code_text timeout = "timeout"
code_text internal = "internal"

pub record SessionAckMessage : Type 0 where
  pub correlation_id : String
  pub server_version : String
  pub ready_at_ms : ℕ

-- its reason is "single_flight" in every message that is made
pub record SessionBusyMessage : Type 0 where
  pub correlation_id : String
  pub retry_after_ms : ℕ

pub record IntentMessage : Type 0 where
  pub correlation_id : String
  pub intent : Text
  pub slots : Slots
  pub confidence : Float
  pub raw_text : Option Text
  pub asr_ms : ℕ
  pub slm_ms : ℕ

pub record ErrorMessage : Type 0 where
  pub correlation_id : String
  pub code : ErrorCode
  pub message : String

pub data ServerMessage : Type 0 where
  session_ack : SessionAckMessage → ServerMessage
  session_busy : SessionBusyMessage → ServerMessage
  intent : IntentMessage → ServerMessage
  error : ErrorMessage → ServerMessage

abbrev pub type_of : ServerMessage → String
type_of (session_ack m) = "session_ack"
type_of (session_busy m) = "session_busy"
type_of (intent m) = "intent"
type_of (error m) = "error"

unfoldable pub make_session_ack : String → String → ℕ → ServerMessage
make_session_ack correlation_id server_version ready_at_ms = session_ack (record {
  correlation_id = correlation_id;
  server_version = server_version;
  ready_at_ms = ready_at_ms;
})

unfoldable pub make_session_busy : String → ℕ → ServerMessage
make_session_busy correlation_id retry_after_ms =
    session_busy (record { correlation_id = correlation_id; retry_after_ms = retry_after_ms })

-- called with the fields of a result
unfoldable pub make_intent : String → StiResult → ServerMessage
make_intent correlation_id r = intent (record {
  correlation_id = correlation_id;
  intent = r.intent;
  slots = r.slots;
  confidence = r.confidence;
  raw_text = r.raw_text;
  asr_ms = r.asr_ms;
  slm_ms = r.slm_ms;
})

unfoldable pub make_error : String → ErrorCode → String → ServerMessage
make_error correlation_id code message =
    error (record { correlation_id = correlation_id; code = code; message = message })

-- `data.get(name)` of a dict
unfoldable pub get_field : String → Fields → Option Json
get_field name end = none
get_field name (field key value rest) = if str_eq key name then some value else get_field name rest

unfoldable pub string_or_empty : Option Json → String
string_or_empty (some (str value)) = value
string_or_empty _ = ""

unfoldable pub extract_correlation_id : Json → String
extract_correlation_id (obj fields) = string_or_empty (get_field "correlation_id" fields)
extract_correlation_id _ = ""

-- a message, or a `ProtocolValidationError` with its correlation id and its text
pub data Parsed : Type 0 where
  parsed : ClientMessage → Parsed
  protocol_error : String → String → Parsed

-- What the libraries do: `json.loads`, none where it raises; `validate_python`, a message or the text of
-- its error; and `model_dump`, the fields of the object that it returns.
pub data Validated : Type 0 where
  valid : ClientMessage → Validated
  refused : String → Validated

pub record Libraries : Type 0 where
  pub loads : String → Option Json
  pub validate_python : Json → Validated
  pub model_dump : ServerMessage → Fields

-- What is used of `model_dump`: the field `type` has the message's literal.
pub record LibrariesLaws (lib : Libraries) : Type 0 where
  pub dumped_type :
      (m : ServerMessage) → get_field "type" (lib.model_dump m) ≡ some (str (type_of m))

-- `validate_python` behind its `try`, with the value that it was given
unfoldable pub validated : Json → Validated → Parsed
validated value (valid m) = parsed m
validated value (refused text) = protocol_error (extract_correlation_id value) text

module _ (lib : Libraries) where
  unfoldable pub validate_loaded : Option Json → Parsed
  validate_loaded none = protocol_error "" "invalid JSON"
  validate_loaded (some value) = validated value (lib.validate_python value)

  -- `parse_client_message(raw)` of a text
  unfoldable pub parse_client_message : String → Parsed
  parse_client_message raw = validate_loaded (lib.loads raw)

  unfoldable pub to_wire : ServerMessage → Json
  to_wire m = obj (lib.model_dump m)

-- what the handler makes of a message
unfoldable pub client_message : ClientMessage → Server.ClientMessage
client_message (session_start m) = Server.ClientMessage.session_start (record {
  correlation_id = m.correlation_id;
  max_utterance_ms = m.max_utterance_ms;
  language = m.language;
})
client_message (session_end m) =
    Server.ClientMessage.session_end m.correlation_id m.audio_frames_sent
client_message (session_cancel m) = Server.ClientMessage.session_cancel m.correlation_id

unfoldable pub received_text : Parsed → Raw
received_text (parsed m) = Raw.message (client_message m)
received_text (protocol_error id text) = Raw.invalid id text

-- `cast(ErrorCode, code)`, of a code that is one of them
unfoldable pub code_of : String → ErrorCode
code_of code =
    if str_eq code "asr_failed"
    then asr_failed
    else if str_eq code "slm_failed"
    then slm_failed
    else if str_eq code "schema_invalid"
    then schema_invalid
    else if str_eq code "timeout"
    then timeout
    else internal

-- the message that the handler makes for a reply, with the version and the times that it adds
unfoldable pub server_message : String → ℕ → Reply → ServerMessage
server_message server_version ready_at_ms (Reply.ack id) =
    make_session_ack id server_version ready_at_ms
server_message server_version ready_at_ms (Reply.busy id) = make_session_busy id 2000
server_message server_version ready_at_ms (Reply.error id code text) =
    make_error id (code_of code) text
server_message server_version ready_at_ms (Reply.intent id r) = make_intent id r
