-- ===== src/Client/Script.antt =====
-- scripts/send_wav_to_brain.py: `send_wav` and `main`. The socket is a parameter: what `recv` gives, one
-- call after another, and how many messages it takes before a `send` raises. The pauses between frames and the printed lines are left out.
pub mod Served
use nubjuk_brain.Prelude.{
  ℕ, zero, suc, String, Bool, Option, none, some, List, [], ◌∷◌, ◌++◌, map, if◌then◌else◌,
}
use nubjuk_brain.Errors.{Result, ok, raise, runtime}
use nubjuk_brain.Json.{Json, null, bool, num, str, arr, obj, Fields}
use nubjuk_brain.Pipeline.{Bytes}
use nubjuk_brain.Client.{AudioFrame, to_wire, iter_audio_frames}
use nubjuk_brain.Client.Dialogue.{
  WavAudio, Wave, read_wav_audio, utterance_limit, start_message, end_message, on_first, is_final,
}

-- What a `recv` gives: a message, by what `json.loads` makes of it, none where it raises; no message
-- within the timeout; or that the connection is closed.
pub data Incoming : Type 0 where
  incoming : Option Json → Incoming
  timed_out : Incoming
  closed : Incoming

-- what is sent, in its order
pub data Outgoing : Type 0 where
  text : Json → Outgoing
  frame : Bytes → Outgoing

-- the arguments, the id being the random one if none is given
pub record ScriptArgs : Type 0 where
  pub device_id : String
  pub correlation_id : String
  pub frame_samples : ℕ
  pub max_utterance_ms : ℕ

-- an `ack.get` or a `parsed.get`, which only a dict has
unfoldable pub on_dict : {A : Type 0} → Json → (Fields → Result A) → Result A
on_dict (obj fields) next = next fields
on_dict null next = raise (runtime "AttributeError")
on_dict (bool b) next = raise (runtime "AttributeError")
on_dict (num n) next = raise (runtime "AttributeError")
on_dict (str s) next = raise (runtime "AttributeError")
on_dict (arr items) next = raise (runtime "AttributeError")

-- the first answer
unfoldable pub on_ack : Incoming → Result (Unit {0})
on_ack (incoming (some json)) = on_dict json on_first
on_ack (incoming none) = raise (runtime "server returned non-JSON response before audio upload")
on_ack timed_out = raise (runtime "ConnectionClosed")
on_ack closed = raise (runtime "ConnectionClosed")

abbrev pub unless_final : Result (Unit {0}) → Bool → Result (Unit {0})
unless_final rest final = if final then ok tt else rest

-- the loop behind `session_end`; nothing more is received when the list ends
unfoldable pub await_answer : List Incoming → Result (Unit {0})
await_answer [] = raise (runtime "timed out waiting for server response")
await_answer (timed_out ∷ rest) = raise (runtime "timed out waiting for server response")
await_answer (closed ∷ rest) = ok tt
await_answer (incoming none ∷ rest) = await_answer rest
await_answer (incoming (some json) ∷ rest) =
    let later = await_answer rest in on_dict json (λ fields. unless_final later (is_final fields))

unfoldable pub first_of : List Incoming → Incoming
first_of [] = timed_out
first_of (i ∷ rest) = i

unfoldable pub others_of : List Incoming → List Incoming
others_of [] = []
others_of (i ∷ rest) = rest

-- one `ws.send` after another, on a connection that takes `room` messages more and is closed then
unfoldable pub send_all : ℕ → List Outgoing → List Outgoing × Result (Unit {0})
send_all room [] = ([], ok tt)
send_all zero (message ∷ rest) = ([], raise (runtime "ConnectionClosed"))
send_all (suc room) (message ∷ rest) = let (out, r) = send_all room rest in (message ∷ out, r)

-- the answer is awaited once all is sent
unfoldable pub after_sends : Result (Unit {0}) → List Incoming → Result (Unit {0})
after_sends (raise e) rest = raise e
after_sends (ok _) rest = await_answer rest

-- from the first answer on: what is sent behind the start, and how it ends
unfoldable pub after_ack :
    ℕ
    → Result (Unit {0})
    → String
    → List AudioFrame
    → List Incoming
    → List Outgoing × Result (Unit {0})
after_ack room (raise e) id frames rest = ([], raise e)
after_ack room (ok _) id frames rest =
    let (out, r) =
      send_all room
        (map (λ (f : AudioFrame). frame (to_wire f)) frames ++ text (end_message id frames) ∷ []) in
    (out, after_sends r rest)

-- from the start on
unfoldable pub after_start :
    ℕ → Outgoing → String → List AudioFrame → List Incoming → List Outgoing × Result (Unit {0})
after_start zero start id frames received = ([], raise (runtime "ConnectionClosed"))
after_start (suc room) start id frames received =
    let (out, r) = after_ack room (on_ack (first_of received)) id frames (others_of received) in
    (start ∷ out, r)

unfoldable pub with_frames :
    ℕ
    → ScriptArgs
    → WavAudio
    → Result (List AudioFrame)
    → List Incoming
    → List Outgoing × Result (Unit {0})
with_frames room args wav (raise e) received = ([], raise e)
with_frames room args wav (ok frames) received =
    after_start room
      (text (
        start_message args.device_id args.correlation_id
          (utterance_limit args.max_utterance_ms wav)))
      args.correlation_id frames received

unfoldable pub with_wav :
    ℕ → ScriptArgs → Result WavAudio → List Incoming → List Outgoing × Result (Unit {0})
with_wav room args (raise e) received = ([], raise e)
with_wav room args (ok wav) received =
    with_frames room args wav (iter_audio_frames wav.pcm args.frame_samples) received

unfoldable pub send_wav : ℕ → ScriptArgs → Wave → List Incoming → List Outgoing × Result (Unit {0})
send_wav room args w received = with_wav room args (read_wav_audio w) received

unfoldable pub exit_code : Result (Unit {0}) → ℕ
exit_code (ok _) = 0
exit_code (raise e) = 1

-- `main`, with what was sent
unfoldable pub run_script : ℕ → ScriptArgs → Wave → List Incoming → List Outgoing × ℕ
run_script room args w received = let (out, r) = send_wav room args w received in (out, exit_code r)
