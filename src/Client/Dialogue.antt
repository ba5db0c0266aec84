-- ===== src/Client/Dialogue.antt =====
-- scripts/send_wav_to_brain.py: what `send_wav` sends, and how it goes on after an answer. Reading the
-- WAV file is a parameter.
use nubjuk_brain.Prelude.{
  ℕ, ◌+◌, ◌*◌, ◌/◌, max, String, Bool, false, not, ◌||◌, Option, some, List, length, str_eq, ◌==◌,
  if◌then◌else◌,
}
use nubjuk_brain.Errors.{Result, ok, raise, runtime}
use nubjuk_brain.Json.{Json, num, str, obj, Fields, field, end}
use nubjuk_brain.Pipeline.{Bytes}
use nubjuk_brain.Client.{AudioFrame}
use nubjuk_brain.Schema.{get_field}

pub record WavAudio : Type 0 where
  pub pcm : Bytes
  pub duration_ms : ℕ

-- What the module `wave` reads from the file.
pub record Wave : Type 0 where
  pub channels : ℕ
  pub sample_width : ℕ
  pub sample_rate : ℕ
  pub frame_count : ℕ
  pub frames : Bytes

-- `read_wav_audio`; a `ValueError` is written as `runtime`
unfoldable pub read_wav_audio : Wave → Result WavAudio
read_wav_audio w =
    if not (w.channels == 1) || not (w.sample_width == 2) || not (w.sample_rate == 16000)
    then raise (runtime "WAV must be 16 kHz mono pcm_s16le")
    else if length w.frames == 0
    then raise (runtime "WAV has no audio frames")
    else ok (record { pcm = w.frames; duration_ms = w.frame_count * 1000 / 16000 })

-- `args.max_utterance_ms or max(1000, wav_audio.duration_ms + 1000)`
unfoldable pub utterance_limit : ℕ → WavAudio → ℕ
utterance_limit given wav = if given == 0 then max 1000 (wav.duration_ms + 1000) else given

unfoldable pub start_message : String → String → ℕ → Json
start_message device_id correlation_id max_utterance_ms =
    let audio_format = field "sample_rate" (num 16000) (
      field "channels" (num 1)
        (field "bit_depth" (num 16) (field "encoding" (str "pcm_s16le") end))) in
    let payload = field "language" (str "ko") (
      field "max_utterance_ms" (num max_utterance_ms)
        (field "audio_format" (obj audio_format) end)) in
    obj (
      field "v" (num 1) (
        field "type" (str "session_start") (
          field "device_id" (str device_id)
            (field "correlation_id" (str correlation_id) (field "payload" (obj payload) end)))))

unfoldable pub end_message : String → List AudioFrame → Json
end_message correlation_id frames = obj (
    field "v" (num 1) (
      field "type" (str "session_end") (
        field "correlation_id" (str correlation_id)
          (field "payload" (obj (field "audio_frames_sent" (num (length frames)) end)) end))))

-- `value.get("type") == name`
unfoldable pub is_string : String → Option Json → Bool
is_string name (some (str value)) = str_eq value name
is_string name _ = false

unfoldable pub has_type : String → Fields → Bool
has_type name fields = is_string name (get_field "type" fields)

-- the branches on the first answer: the audio is sent after an ack only
unfoldable pub on_first : Fields → Result (Unit {0})
on_first fields =
    if has_type "session_busy" fields
    then raise (runtime "server busy")
    else if has_type "error" fields
    then raise (runtime "server rejected session_start")
    else if not (has_type "session_ack" fields)
    then raise (runtime "expected session_ack")
    else ok tt

-- whether a later answer ends the wait
unfoldable pub is_final : Fields → Bool
is_final fields = has_type "intent" fields || has_type "error" fields
