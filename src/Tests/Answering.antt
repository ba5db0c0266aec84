-- ===== src/Tests/Answering.antt =====
-- Whole sessions, connections that share a manager, and a client that reads the server's messages.
use nubjuk_brain.Prelude.{
  take, leb, length, ℕ, inr, arith, ◌≤◌, ◌≡◌, refl, true, false, none, some, List, [], ◌∷◌, ◌++◌,
  map,
}
use nubjuk_brain.Errors.{ok}
use nubjuk_brain.Json.{str, field, end}
use nubjuk_brain.Session.{
  SessionManager, idle, new_manager, try_start, start_result, transition, write_log,
}
use nubjuk_brain.Session.Schedule.{Call, run, perform}
use nubjuk_brain.Session.Settled.{IsSettled}
use nubjuk_brain.Session.Soundness.{start, start-IsSound, run-IsSound}
use nubjuk_brain.Client.{to_wire, AudioFrame, iter_audio_frames, cut_frames, cut_frame}
use nubjuk_brain.Client.Dialogue.{Wave, read_wav_audio}
use nubjuk_brain.Schema.{Libraries, LibrariesLaws, Validated, get_field, type_of}
use nubjuk_brain.Client.Script.{ScriptArgs, closed, run_script}
use nubjuk_brain.Client.Script.Served.{sent_to, code_for, arrived, run_script_served}
use nubjuk_brain.Server.{
  Server, Reply, Event, queue_full, accepted, received, worked, looked, disconnect, binary, message,
  session_start, session_end, step, serve,
}
use nubjuk_brain.Server.Many.{Turn, new_app, take_turns}
use nubjuk_brain.Server.Many.Fair.{holds}
use nubjuk_brain.Server.Many.Single.{running, take_turns-single}
use nubjuk_brain.Server.Draining.{feed_audio_takes, IsAnswering, fed_up, serve-answered}
use nubjuk_brain.Server.Timing.{IsScheduled}
use nubjuk_brain.Pipeline.{Bytes}
use nubjuk_brain.Server.Interrupted.{Interruption, interrupt, unwind, unwind_steals}
use nubjuk_brain.Server.Sending.{AreTaken, session_events, frame_events}
use nubjuk_brain.Server.Exchange.{serve-session}
use nubjuk_brain.Tests.Fixtures.{demo_opts, open_session, answer, answering, answering-Starts}

-- two connections, and a third that comes after a session was given up
abbrev turns : List Turn
turns =
    Turn.connect
    ∷ Turn.connect
    ∷ Turn.on 0 (received 1 (message (session_start demo_opts)))
    ∷ Turn.on 1 (received 2 (message (session_start demo_opts)))
    ∷ Turn.on 0 (received 3 disconnect)
    ∷ Turn.connect
    ∷ Turn.on 2 (received 4 (message (session_start demo_opts)))
    ∷ []

take_turns-single_example :
    running (take_turns answering 2 turns (new_app 0 tt)).connections
    ≤ holds (take_turns answering 2 turns (new_app 0 tt)).manager
take_turns-single_example = take_turns-single answering 2 turns 0 tt

answering-IsAnswering : IsAnswering answering
answering-IsAnswering = record { takes = λ pcm p. refl; answers = λ p. tt }

abbrev free : SessionManager (Unit {0})
free = new_manager 0 tt

abbrev frames : List AudioFrame
frames =
    record { seq = 0; flags = 0; payload = 1 ∷ 2 ∷ [] }
    ∷ record { seq = 1; flags = 1; payload = 3 ∷ 4 ∷ [] }
    ∷ []

-- both frames are queued before the worker feeds the first one, and one is left behind the end
abbrev burst : List Event
burst =
    received 7 (message (session_start demo_opts))
    ∷ received 8 (binary (to_wire (record { seq = 0; flags = 0; payload = 1 ∷ 2 ∷ [] })))
    ∷ received 9 (binary (to_wire (record { seq = 1; flags = 1; payload = 3 ∷ 4 ∷ [] })))
    ∷ worked
    ∷ received 10 (message (session_end "c1" 2))
    ∷ looked 10 false
    ∷ worked
    ∷ worked
    ∷ looked 11 true
    ∷ []

burst-IsScheduled : IsScheduled 2 0 (session_events demo_opts frames) burst
unfolding session_events frame_events
burst-IsScheduled =
    (refl, tt, (refl, inr (omega arith), (refl, inr (omega arith), (refl, tt, (refl, refl)))))

abbrev ended : Server (Unit {0})
ended = serve answering 2 burst (record { connection = accepted; manager = free })

frames_taken : (now : ℕ) → AreTaken answering frames (try_start answering now demo_opts free).1
frames_taken now = (
  feed_audio_takes answering 2 answering-IsAnswering _ _,
  (feed_audio_takes answering 2 answering-IsAnswering _ _, tt),
)

serve-session_example :
    (ended.connection.sent ≡ Reply.ack "c1" ∷ Reply.intent "c1" answer ∷ [])
    × (ended.connection.returned ≡ true)
    × (ended.manager.state ≡ idle)
    × (ended.manager.locked ≡ false)
serve-session_example =
    serve-session answering 2 burst demo_opts frames free {result = answer}
      (unfold new_manager in refl)
      (record { starts = refl; taken = frames_taken; answer = λ now. refl }) burst-IsScheduled

-- two frames that are queued when the end is requested
abbrev left_over : List Bytes
left_over = (0 ∷ 0 ∷ 1 ∷ 0 ∷ 5 ∷ 6 ∷ []) ∷ (1 ∷ 0 ∷ 1 ∷ 0 ∷ 7 ∷ 8 ∷ []) ∷ []

abbrev draining : Server (Unit {0})
draining = record {
  connection = record accepted {
    started = true;
    correlation_id = "c1";
    waiting = some ("c1", 1);
    audio_queue = left_over;
  };
  manager = open_session tt;
}

abbrev drain_events : List Event
drain_events = looked 5 true ∷ worked ∷ looked 6 true ∷ worked ∷ worked ∷ looked 7 false ∷ []

serve-answered_example :
    ((now : ℕ) × (serve answering 2 drain_events draining
        ≡ step answering 2 (looked now false) (fed_up answering 2 left_over draining)))
    × ((serve answering 2 drain_events draining).connection.returned ≡ true)
    × ((serve answering 2 drain_events draining).manager.locked ≡ false)
serve-answered_example =
    serve-answered answering 2 answering-IsAnswering drain_events left_over false "c1" 1 draining
      (record {
        returned = refl;
        waiting = refl;
        error = refl;
        working = refl;
        state = refl;
        locked = refl;
      })
      refl (refl, refl)

-- the manager of a session that was started
abbrev held : SessionManager (Unit {0})
held = (try_start answering 0 demo_opts free).1

held-IsSettled : IsSettled held
unfolding run perform
held-IsSettled =
    (run-IsSound answering answering-Starts (Call.try_start 0 demo_opts ∷ []) (start 0 tt) (tt, tt)
      (start-IsSound 0 tt)).settled

held-locked : held.locked ≡ true
unfolding try_start start_result new_manager transition write_log
held-locked = refl

abbrev taken : Server (Unit {0})
taken = unwind answering (record {
  connection = accepted;
  manager =
      (try_start answering 9 demo_opts (interrupt answering Interruption.disconnected held)).1;
})

unwind_steals_example :
    ((try_start answering 9 demo_opts (interrupt answering Interruption.disconnected held)).0
      ≡ ok true)
    × (taken.manager.state ≡ idle)
    × (taken.manager.locked ≡ false)
unwind_steals_example =
    unwind_steals answering answering-Starts Interruption.disconnected 9 demo_opts accepted held
      held-IsSettled held-locked

abbrev demo_libraries : Libraries
demo_libraries = record {
  loads = λ raw. none;
  validate_python = λ value. Validated.refused "union_tag_not_found";
  model_dump = λ m. field "type" (str (type_of m)) end;
}

demo_libraries-LibrariesLaws : LibrariesLaws demo_libraries
unfolding get_field
demo_libraries-LibrariesLaws = record { dumped_type = λ m. refl }

abbrev demo_wave : Wave
demo_wave = record {
  channels = 1;
  sample_width = 2;
  sample_rate = 16000;
  frame_count = 1;
  frames = 1 ∷ 2 ∷ [];
}

abbrev demo_args : ScriptArgs
demo_args = record {
  device_id = "robot";
  correlation_id = "c1";
  frame_samples = 1;
  max_utterance_ms = 0;
}

-- the one frame of it
abbrev demo_frames : List AudioFrame
demo_frames = record { seq = 0; flags = 1; payload = 1 ∷ 2 ∷ [] } ∷ []

run_script_served_example :
    run_script 3 demo_args demo_wave (
      map
        (arrived demo_libraries demo_libraries-LibrariesLaws "0.1.0" 5)
        (Reply.ack "c1" ∷ Reply.intent "c1" answer ∷ [])
      ++ closed ∷ [])
    ≡ (
      take 3 (sent_to demo_args (record { pcm = 1 ∷ 2 ∷ []; duration_ms = 0 }) demo_frames true),
      code_for (
          leb
            (length
              (sent_to demo_args (record { pcm = 1 ∷ 2 ∷ []; duration_ms = 0 }) demo_frames true))
            3),
    )
unfolding read_wav_audio iter_audio_frames cut_frames cut_frame
run_script_served_example =
    run_script_served demo_libraries demo_libraries-LibrariesLaws "0.1.0" 5 3 demo_args demo_wave
      (record { pcm = 1 ∷ 2 ∷ []; duration_ms = 0 }) demo_frames (Reply.ack "c1")
      (Reply.intent "c1" answer ∷ []) refl refl

queue_full_256 : (queue_full 256).message ≡ "audio queue full max_frames=256"
unfolding queue_full
queue_full_256 = refl
