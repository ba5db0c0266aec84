-- ===== src/Client/Script/Served.antt =====
-- scripts/send_wav_to_brain.py with brain/ws_server.py: the script on the replies of the server
use nubjuk_brain.Prelude.{
  arith, ap, if-intro, zero, suc, ◌&&◌, leb, take, length, ℕ, ◌≡◌, refl, String, Bool, true, false,
  some, List, [], ◌∷◌, ◌++◌, map,
}
use nubjuk_brain.Errors.{Result, ok, raise, runtime}
use nubjuk_brain.Json.{obj}
use nubjuk_brain.Client.{AudioFrame, to_wire, iter_audio_frames}
use nubjuk_brain.Client.Dialogue.{
  WavAudio, Wave, read_wav_audio, utterance_limit, start_message, end_message, is_final,
}
use nubjuk_brain.Client.Script.{
  Incoming, incoming, closed, Outgoing, text, frame, ScriptArgs, on_dict, on_ack, await_answer,
  first_of, others_of, send_all, after_sends, after_start, after_ack, with_frames, with_wav,
  send_wav, exit_code, run_script,
}
use nubjuk_brain.Schema.{Libraries, LibrariesLaws}
use nubjuk_brain.Schema.Answers.{outcome, dumped, dialogue_understood}
use nubjuk_brain.Server.{Reply}

abbrev pub is_ack : Reply → Bool
is_ack (Reply.ack id) = true
is_ack (Reply.busy id) = false
is_ack (Reply.error id code message) = false
is_ack (Reply.intent id r) = false

-- the audio and its end
abbrev pub audio_sent : ScriptArgs → List AudioFrame → List Outgoing
audio_sent args frames =
    map (λ (f : AudioFrame). frame (to_wire f)) frames
    ++ text (end_message args.correlation_id frames) ∷ []

-- what the script means to send, by whether its start is acknowledged
abbrev pub sent_to : ScriptArgs → WavAudio → List AudioFrame → Bool → List Outgoing
sent_to args wav frames true =
    text
      (start_message args.device_id args.correlation_id (utterance_limit args.max_utterance_ms wav))
    ∷ audio_sent args frames
sent_to args wav frames false =
    text
      (start_message args.device_id args.correlation_id (utterance_limit args.max_utterance_ms wav))
    ∷ []

abbrev pub code_for : Bool → ℕ
code_for true = 0
code_for false = 1

leb_above : (n : ℕ) → leb (suc n) 0 ≡ false
leb_above n = ground arith

leb_first : (n : ℕ) → leb 0 n ≡ true
leb_first n = ground arith

take_nil : {A : Type 0} (n : ℕ) → take {A = A} n [] ≡ []
take_nil zero = refl
take_nil (suc n) = refl

leb-suc : (a b : ℕ) → leb (suc a) (suc b) ≡ leb a b
leb-suc a b = ground arith

-- whether all was sent
abbrev all_taken : Bool → Result (Unit {0})
all_taken true = ok tt
all_taken false = raise (runtime "ConnectionClosed")

send_all_lem :
    (room : ℕ) (out : List Outgoing)
    → send_all room out ≡ (take room out, all_taken (leb (length out) room))
unfolding send_all
send_all_lem zero [] = refl
send_all_lem (suc room) [] = rw (leb_first (suc room)) refl
send_all_lem zero (message ∷ rest) = rw (leb_above (length rest)) refl
send_all_lem (suc room) (message ∷ rest) =
    rw (send_all_lem room rest, leb-suc (length rest) room) refl

module _ (lib : Libraries) (laws : LibrariesLaws lib) (version : String) (ready_at_ms : ℕ) where
  abbrev pub arrived : Reply → Incoming
  arrived reply = incoming (some (obj (dumped lib laws version ready_at_ms reply)))

  await_closed : (replies : List Reply) → await_answer (map arrived replies ++ closed ∷ []) ≡ ok tt
  unfolding await_answer on_dict
  await_closed [] = refl
  await_closed (reply ∷ rest) = rw (await_closed rest) (
      if-intro (λ x. x ≡ ok tt) (is_final (dumped lib laws version ready_at_ms reply)) (λ _. refl)
        (λ _. refl))

  on_ack-outcome : (reply : Reply) → on_ack (arrived reply) ≡ outcome reply
  unfolding on_ack on_dict
  on_ack-outcome reply = (dialogue_understood lib laws version ready_at_ms reply).0

  answered :
      (b : Bool) (rest : List Reply)
      → exit_code (after_sends (all_taken b) (map arrived rest ++ closed ∷ [])) ≡ code_for b
  unfolding exit_code after_sends
  answered true rest = rw (await_closed rest) refl
  answered false rest = refl

  -- The script on a WAV that it accepts, with frames that it can cut, a connection that takes any number
  -- of its messages, `room`, and then raises, and a server that sends replies, at least one, and then
  -- closes the connection. What the script means to send is its start, the frames in their order and its
  -- end if the first reply is an ack, and its start alone otherwise; the connection takes the first
  -- `room` messages of it, and nothing else is sent. The script exits with 0 if the first reply is an ack
  -- and all of it was taken, and with 1 otherwise.
  pub run_script_served :
      (room : ℕ) (args : ScriptArgs) (w : Wave) (wav : WavAudio) (frames : List AudioFrame)
      (reply : Reply) (rest : List Reply)
      → read_wav_audio w ≡ ok wav
      → iter_audio_frames wav.pcm args.frame_samples ≡ ok frames
      → run_script room args w (map arrived (reply ∷ rest) ++ closed ∷ []) ≡ (
        take room (sent_to args wav frames (is_ack reply)),
        code_for (is_ack reply && leb (length (sent_to args wav frames (is_ack reply))) room),
      )
  unfolding run_script send_wav with_wav with_frames first_of others_of after_start after_ack
      exit_code
  run_script_served zero args w wav frames (Reply.ack id) rest r c = rw (r, c, leb_above _) refl
  run_script_served zero args w wav frames (Reply.busy id) rest r c = rw (r, c) refl
  run_script_served zero args w wav frames (Reply.error id code message) rest r c = rw (r, c) refl
  run_script_served zero args w wav frames (Reply.intent id result) rest r c = rw (r, c) refl
  run_script_served (suc room) args w wav frames (Reply.ack id) rest r c =
      rw
        (
          r,
          c,
          on_ack-outcome (Reply.ack id),
          send_all_lem room (audio_sent args frames),
          leb-suc (length (audio_sent args frames)) room,
        )
        (ap (λ x. (take (suc room) (sent_to args wav frames true), x))
          (answered (leb (length (audio_sent args frames)) room) rest))
  run_script_served (suc room) args w wav frames (Reply.busy id) rest r c =
      rw (r, c, on_ack-outcome (Reply.busy id), take_nil room) refl
  run_script_served (suc room) args w wav frames (Reply.error id code message) rest r c =
      rw (r, c, on_ack-outcome (Reply.error id code message), take_nil room) refl
  run_script_served (suc room) args w wav frames (Reply.intent id result) rest r c =
      rw (r, c, on_ack-outcome (Reply.intent id result), take_nil room) refl
