-- ===== src/Schema/Declared.antt =====
-- brain/schema.py: the fields that the client's messages declare. That pydantic reads a message from
-- a dict that has them is a law of the validator.
use nubjuk_brain.Prelude.{
  ℕ, ◌≡◌, String, Bool, true, false, not, ◌&&◌, ◌||◌, Option, none, some, List, [], ◌∷◌, leb, ◌==◌,
  str_eq,
}
use nubjuk_brain.Json.{Json, num, str, obj, Fields, field, end}
use nubjuk_brain.Schema.{
  SessionStartMessage, SessionEndMessage, SessionCancelMessage, session_start, session_end,
  session_cancel, Libraries, valid, get_field, string_or_empty,
}

-- A field of a model, whether it must be given, and whether a value conforms to its type.
pub record Declaration : Type 0 where
  pub name : String
  pub required : Bool
  pub conforms : Json → Bool

abbrev pub declare : String → (Json → Bool) → Declaration
declare name conforms = record { name = name; required = true; conforms = conforms }

-- `Literal[…]` of a number and of a text, `str`, and `int` with a lower bound
unfoldable pub is_number : ℕ → Json → Bool
is_number n (num m) = m == n
is_number n _ = false

unfoldable pub is_literal : String → Json → Bool
is_literal text (str value) = str_eq value text
is_literal text _ = false

unfoldable pub is_text : Json → Bool
is_text (str value) = true
is_text _ = false

unfoldable pub is_number_from : ℕ → Json → Bool
is_number_from low (num m) = leb low m
is_number_from low _ = false

unfoldable pub conforms_to : Declaration → Option Json → Bool
conforms_to d none = not d.required
conforms_to d (some value) = d.conforms value

unfoldable pub are_given : List Declaration → Fields → Bool
are_given [] fields = true
are_given (d ∷ rest) fields =
    let others = are_given rest fields in conforms_to d (get_field d.name fields) && others

unfoldable pub is_declared : String → List Declaration → Bool
is_declared name [] = false
is_declared name (d ∷ rest) = let others = is_declared name rest in str_eq name d.name || others

-- `extra="forbid"`
unfoldable pub are_declared : List Declaration → Fields → Bool
are_declared model end = true
are_declared model (field name value rest) =
    let others = are_declared model rest in is_declared name model && others

unfoldable pub is_model : List Declaration → Json → Bool
is_model model (obj fields) = are_given model fields && are_declared model fields
is_model model _ = false

abbrev pub audio_format : List Declaration
audio_format =
    declare "sample_rate" (is_number 16000)
    ∷ declare "channels" (is_number 1)
    ∷ declare "bit_depth" (is_number 16)
    ∷ declare "encoding" (is_literal "pcm_s16le")
    ∷ []

abbrev pub session_start_payload : List Declaration
session_start_payload =
    record { name = "language"; required = false; conforms = is_text }
    ∷ declare "max_utterance_ms" (is_number_from 1)
    ∷ declare "audio_format" (is_model audio_format)
    ∷ []

abbrev pub session_start_message : List Declaration
session_start_message =
    declare "v" (is_number 1)
    ∷ declare "type" (is_literal "session_start")
    ∷ declare "device_id" is_text
    ∷ declare "correlation_id" is_text
    ∷ declare "payload" (is_model session_start_payload)
    ∷ []

abbrev pub session_end_payload : List Declaration
session_end_payload = declare "audio_frames_sent" (is_number_from 0) ∷ []

abbrev pub session_end_message : List Declaration
session_end_message =
    declare "v" (is_number 1)
    ∷ declare "type" (is_literal "session_end")
    ∷ declare "correlation_id" is_text
    ∷ declare "payload" (is_model session_end_payload)
    ∷ []

abbrev pub session_cancel_message : List Declaration
session_cancel_message =
    declare "v" (is_number 1)
    ∷ declare "type" (is_literal "session_cancel")
    ∷ declare "correlation_id" is_text
    ∷ declare "payload" (is_model (declare "reason" is_text ∷ []))
    ∷ []

-- the message that is made of the fields
abbrev pub fields_of : Option Json → Fields
fields_of (some (obj fields)) = fields
fields_of _ = end

abbrev pub text_or : String → Option Json → String
text_or default (some (str value)) = value
text_or default _ = default

abbrev pub number_of : Option Json → ℕ
number_of (some (num n)) = n
number_of _ = 0

unfoldable pub start_of : Fields → SessionStartMessage
start_of fields =
    let payload = fields_of (get_field "payload" fields) in
    record {
      device_id = string_or_empty (get_field "device_id" fields);
      correlation_id = string_or_empty (get_field "correlation_id" fields);
      language = text_or "ko" (get_field "language" payload);
      max_utterance_ms = number_of (get_field "max_utterance_ms" payload);
    }

unfoldable pub end_of : Fields → SessionEndMessage
end_of fields = record {
  correlation_id = string_or_empty (get_field "correlation_id" fields);
  audio_frames_sent =
      number_of (get_field "audio_frames_sent" (fields_of (get_field "payload" fields)));
}

unfoldable pub cancel_of : Fields → SessionCancelMessage
cancel_of fields = record {
  correlation_id = string_or_empty (get_field "correlation_id" fields);
  reason = string_or_empty (get_field "reason" (fields_of (get_field "payload" fields)));
}

-- What is used of `validate_python`: the field `type` chooses the model, and a dict that conforms to
-- the model is read. What it does with other dicts, some of which it converts, is left open.
pub record ValidatorLaws (lib : Libraries) : Type 0 where
  pub start_valid :
      (fields : Fields)
      → get_field "type" fields ≡ some (str "session_start")
      → is_model session_start_message (obj fields) ≡ true
      → lib.validate_python (obj fields) ≡ valid (session_start (start_of fields))
  pub end_valid :
      (fields : Fields)
      → get_field "type" fields ≡ some (str "session_end")
      → is_model session_end_message (obj fields) ≡ true
      → lib.validate_python (obj fields) ≡ valid (session_end (end_of fields))
  pub cancel_valid :
      (fields : Fields)
      → get_field "type" fields ≡ some (str "session_cancel")
      → is_model session_cancel_message (obj fields) ≡ true
      → lib.validate_python (obj fields) ≡ valid (session_cancel (cancel_of fields))
