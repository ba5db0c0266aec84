-- ===== src/Tests/Protocol.antt =====
-- The texts of a client, read by a validator that follows the models.
use nubjuk_brain.Prelude.{◌≡◌, refl, ap, some, Option, String, List, [], ◌∷◌, str_eq, if◌then◌else◌}
use nubjuk_brain.Json.{Json, str, obj, Fields, field, end}
use nubjuk_brain.Client.{AudioFrame}
use nubjuk_brain.Client.Dialogue.{WavAudio, utterance_limit, start_message, end_message}
use nubjuk_brain.Schema.{
  Libraries, Validated, valid, refused, session_start, session_end, session_cancel, get_field,
  type_of,
}
use nubjuk_brain.Schema.Declared.{ValidatorLaws, start_of, end_of, cancel_of}
use nubjuk_brain.Schema.Sent.{wire_events, wire_events-session_events}
use nubjuk_brain.Server.Sending.{session_events}

abbrev wav : WavAudio
wav = record { pcm = 1 ∷ 2 ∷ []; duration_ms = 4000 }

abbrev frames : List AudioFrame
frames = record { seq = 0; flags = 1; payload = 1 ∷ 2 ∷ [] } ∷ []

abbrev demo_loads : String → Option Json
demo_loads raw =
    if str_eq raw "start"
    then some (start_message "robot" "c1" (utterance_limit 0 wav))
    else some (end_message "c1" frames)

abbrev read_type : Option Json → Fields → Validated
read_type (some (str name)) fields =
    if str_eq name "session_start"
    then valid (session_start (start_of fields))
    else if str_eq name "session_end"
    then valid (session_end (end_of fields))
    else valid (session_cancel (cancel_of fields))
read_type _ fields = refused "union_tag_not_found"

abbrev read_message : Json → Validated
read_message (obj fields) = read_type (get_field "type" fields) fields
read_message _ = refused "model_type"

abbrev reading : Libraries
reading = record {
  loads = demo_loads;
  validate_python = read_message;
  model_dump = λ m. field "type" (str (type_of m)) end;
}

reading-ValidatorLaws : ValidatorLaws reading
reading-ValidatorLaws = record {
  start_valid = λ fields e h. ap (λ o. read_type o fields) e;
  end_valid = λ fields e h. ap (λ o. read_type o fields) e;
  cancel_valid = λ fields e h. ap (λ o. read_type o fields) e;
}

wire_events-session_events_example :
    wire_events reading "start" frames "end"
    ≡ session_events
        (record {
          correlation_id = "c1";
          max_utterance_ms = utterance_limit 0 wav;
          language = "ko";
        })
        frames
wire_events-session_events_example =
    wire_events-session_events reading reading-ValidatorLaws "start" "end" "robot" "c1" 0 wav frames
      refl refl
