-- ===== src/Server/State.antt =====
-- brain/ws_server.py: the state of one connection, its messages, and what its handler sends
use text.Mathlib.Text.{◌==◌ as text_is}
use Prim.Native.String.{◌++◌ as joined}
use nubjuk_brain.Prelude.{
  ℕ, zero, suc, ◌/◌, ◌%◌, some, String, Bool, true, false, ◌&&◌, ◌||◌, Option, none, List, [], ◌∷◌,
  ◌++◌, length, ltb, leb, if◌then◌else◌,
}
use nubjuk_brain.Errors.{StiError, sti_error}
use nubjuk_brain.Pipeline.{Bytes, StiResult, SessionOpts}
use nubjuk_brain.Session.{SessionManager}

-- what `parse_client_message` returns
pub data ClientMessage : Type 0 where
  session_start : SessionOpts → ClientMessage
  session_end : String → ℕ → ClientMessage
  session_cancel : String → ClientMessage

-- What is received: `invalid` is a text that the parser refuses, with the correlation id and the
-- reason of its `ProtocolValidationError`.
pub data Raw : Type 0 where
  disconnect : Raw
  binary : Bytes → Raw
  unsupported : Raw
  invalid : String → String → Raw
  message : ClientMessage → Raw

-- What is sent: `make_session_ack`, `make_session_busy`, `make_error` and `make_intent`.
pub data Reply : Type 0 where
  ack : String → Reply
  busy : String → Reply
  error : String → String → String → Reply
  intent : String → StiResult → Reply

-- The handler's variables, the queue, and whether the worker runs; `waiting` is a `session_end` whose
-- handler waits for the queue to be drained.
pub record Connection : Type 0 where
  pub started : Bool
  pub correlation_id : String
  pub audio_queue : List Bytes
  pub audio_error : Option StiError
  pub working : Bool
  pub waiting : Option (String × ℕ)
  pub sent : List Reply
  pub returned : Bool

-- a connection as it is accepted
abbrev pub accepted : Connection
accepted = record {
  started = false;
  correlation_id = "";
  audio_queue = [];
  audio_error = none;
  working = true;
  waiting = none;
  sent = [];
  returned = false;
}

pub record Server (P : Type 0) : Type 0 where
  pub connection : Connection
  pub manager : SessionManager P

unfoldable pub safe_error_code : String → String
safe_error_code code =
    if text_is code "asr_failed"
      || text_is code "slm_failed"
      || text_is code "schema_invalid"
      || text_is code "timeout"
      || text_is code "internal"
    then code
    else "internal"

-- `asyncio.Queue.full`: a size of 0 is no bound
unfoldable pub is_full : ℕ → List Bytes → Bool
is_full maxsize queue = ltb 0 maxsize && leb maxsize (length queue)

abbrev pub nth : ℕ → List String → String
nth n [] = ""
nth zero (x ∷ xs) = x
nth (suc n) (x ∷ xs) = nth n xs

abbrev pub digit : ℕ → String
digit n = nth n ("0" ∷ "1" ∷ "2" ∷ "3" ∷ "4" ∷ "5" ∷ "6" ∷ "7" ∷ "8" ∷ "9" ∷ [])

-- a number as the source's text has it; the first argument bounds how many digits it has, and the
-- number itself is enough for that
abbrev pub decimal : ℕ → ℕ → String
decimal zero n = digit n
decimal (suc fuel) n =
    let front = decimal fuel (n / 10) in if ltb n 10 then digit n else joined front (digit (n % 10))

-- what a full queue raises
unfoldable pub queue_full : ℕ → StiError
queue_full maxsize =
    sti_error "timeout" (some (joined "audio queue full max_frames=" (decimal maxsize maxsize)))

abbrev pub send_json : Reply → Connection → Connection
send_json r c = record c { sent = c.sent ++ r ∷ [] }

abbrev pub send_error : String → StiError → Connection → Connection
send_error id e = send_json (error id (safe_error_code e.code) e.message)

abbrev pub send_schema_invalid : String → String → Connection → Connection
send_schema_invalid id text = send_json (error id "schema_invalid" text)

-- `return`, behind which the worker is cancelled
abbrev pub leave : Connection → Connection
leave c = record c { returned = true; working = false }
