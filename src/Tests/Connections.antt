-- ===== src/Tests/Connections.antt =====
-- The handler of a connection, on a session with the mock pipeline.
use nubjuk_brain.Prelude.{◌≤◌, ◌≡◌, refl, true, false, List, [], ◌∷◌, ◌++◌, length, arith}
use nubjuk_brain.Session.{idle, new_manager, transition, write_log, try_start, start_result}
use nubjuk_brain.Session.Soundness.{start-IsSound}
use nubjuk_brain.Session.Schedule.{Call, run, perform}
use nubjuk_brain.Session.Soundness.{start, run-IsSound}
use nubjuk_brain.Server.{
  Server, Event, Connection, accepted, step, serve, disconnect, binary, message, session_start,
  session_end, receive_unsent, on_message_unsent, start_unsent, caught, received, unsent, worked,
  looked,
}
use nubjuk_brain.Server.Leaks.{HasSession, step-leaks, unsent_start_released}
use nubjuk_brain.Server.Report.Told.{lines_of, answers_of, reports, serve-reported}
use nubjuk_brain.Server.Queue.{serve-within}
use nubjuk_brain.Server.Endings.{IsServing, IsLeft, step-IsLeft}
use nubjuk_brain.Tests.Fixtures.{demo_opts, answering, answering-Starts}

abbrev running : Connection
running = record accepted { started = true; correlation_id = "c1" }

-- the manager that a first session_start leaves
abbrev begun : Server (Unit {0})
begun = record {
  connection = running;
  manager = (try_start answering 0 demo_opts (new_manager 0 tt)).1;
}

begun-IsServing : IsServing begun
unfolding run perform try_start start_result new_manager transition write_log
begun-IsServing = record {
  started = refl;
  waiting = refl;
  returned = refl;
  locked = refl;
  settled =
      (run-IsSound answering answering-Starts (Call.try_start 0 demo_opts ∷ []) (start 0 tt)
        (tt, tt) (start-IsSound 0 tt)).settled;
}

step-IsLeft_example : IsLeft answering begun (step answering 2 (received 7 disconnect) begun)
step-IsLeft_example = step-IsLeft answering 2 7 disconnect begun begun-IsServing tt

serve-within_example :
    length
      (serve answering 1
        (received 0 (binary []) ∷ received 0 (binary []) ∷ worked ∷ received 0 (binary []) ∷ [])
        begun).connection.audio_queue
    ≤ 1
serve-within_example =
    serve-within answering 1 (omega arith)
      (received 0 (binary []) ∷ received 0 (binary []) ∷ worked ∷ received 0 (binary []) ∷ []) begun
      (omega arith)

begun-HasSession : HasSession begun
unfolding try_start start_result new_manager transition write_log
begun-HasSession = record {
  started = refl;
  returned = refl;
  state = refl;
  locked = refl;
  settled = begun-IsServing.settled;
}

begun_returns :
    (step answering 2 (unsent 7 (message (session_start demo_opts))) begun).connection.returned
    ≡ true
unfolding step try_start start_result new_manager transition write_log receive_unsent
    on_message_unsent start_unsent caught
begun_returns = refl

step-leaks_example :
    (step answering 2 (unsent 7 (message (session_start demo_opts))) begun).manager.locked ≡ false
step-leaks_example =
    step-leaks answering 2 (unsent 7 (message (session_start demo_opts))) begun begun-HasSession
      begun_returns

unsent_start_released_example :
    ((step answering 2
        (unsent 7 (message (session_start demo_opts)))
        (record { connection = accepted; manager = new_manager 0 tt })).connection.sent
      ≡ [])
    × ((step answering 2
          (unsent 7 (message (session_start demo_opts)))
          (record { connection = accepted; manager = new_manager 0 tt })).connection.returned
        ≡ true)
    × ((step answering 2
          (unsent 7 (message (session_start demo_opts)))
          (record { connection = accepted; manager = new_manager 0 tt })).manager.state
        ≡ idle)
    × ((step answering 2
          (unsent 7 (message (session_start demo_opts)))
          (record { connection = accepted; manager = new_manager 0 tt })).manager.locked
        ≡ false)
unfolding new_manager
unsent_start_released_example =
    unsent_start_released answering 2 7 demo_opts (new_manager 0 tt) answering-Starts
      (start-IsSound 0 tt).settled refl

-- the session is ended, and the answer sent
abbrev ending : List Event
ending = received 7 (message (session_end "c1" 0)) ∷ looked 8 true ∷ []

serve-reported_example :
    lines_of (serve answering 2 ending begun).connection.sent
    ≡ lines_of [] ++ answers_of (reports answering 2 ending begun)
serve-reported_example = serve-reported answering 2 ending begun (tt, (refl, tt))
