-- ===== src/Session/Diagram.antt =====
-- brain/session.py: the state diagram, and the logs that follow it
use nubjuk_brain.Prelude.{ℕ, String, List, [], ◌∷◌, ◌++◌}
use nubjuk_brain.Session.State.{
  SessionState, idle, audio_in, processing, done, cancelled, Warning, SessionStats, LogEntry,
  state_transition, frame_warning, session_done, SessionManager, transition, warn, log_session_done,
  new_manager,
}

-- The moves of INTERFACES.md and, from `done` to `cancelled`, the one that the code adds to them.
infix 40 ◌⟶◌
pub data ◌⟶◌ : SessionState → SessionState → Type 0 where
  start : idle ⟶ audio_in
  end_audio : audio_in ⟶ processing
  answer : processing ⟶ done
  stop_audio : audio_in ⟶ cancelled
  stop_processing : processing ⟶ cancelled
  unsent : done ⟶ cancelled
  close_done : done ⟶ idle
  close_cancelled : cancelled ⟶ idle

pub ruleset moves =
    (start, end_audio, answer, stop_audio, stop_processing, unsent, close_done, close_cancelled)

-- `Trace log s`: the transitions in `log` are moves, each from where the one before it ended, the
-- first from `idle` and the last to `s`.
pub data Trace : List LogEntry → SessionState → Type 0 where
  begin : Trace [] idle
  moved :
      {l : List LogEntry} {s t : SessionState} (id reason : String)
      → Trace l s
      → s ⟶ t
      → Trace (l ++ state_transition id s t reason ∷ []) t
  warned :
      {l : List LogEntry} {s : SessionState} (id : String) (w : Warning)
      → Trace l s
      → Trace (l ++ frame_warning id w ∷ []) s
  reported :
      {l : List LogEntry} {s : SessionState} (id : String) (at : SessionState) (st : SessionStats)
      (ms : ℕ)
      → Trace l s
      → Trace (l ++ session_done id at st ms ∷ []) s

module _ {P : Type 0} where
  abbrev pub IsTraced : SessionManager P → Type 0
  IsTraced m = Trace m.log m.state

  pub new_manager-IsTraced : (now : ℕ) (p : P) → IsTraced (new_manager now p)
  unfolding new_manager
  new_manager-IsTraced now p = begin

  pub transition-IsTraced :
      (t : SessionState) (reason : String) (m : SessionManager P)
      → m.state ⟶ t
      → IsTraced m
      → IsTraced (transition t reason m)
  unfolding transition
  transition-IsTraced t reason m e h = moved _ reason h e

  pub warn-IsTraced : (w : Warning) (m : SessionManager P) → IsTraced m → IsTraced (warn w m)
  unfolding warn
  warn-IsTraced w m h = warned _ w h

  pub log_session_done-IsTraced :
      (now : ℕ) (m : SessionManager P) → IsTraced m → IsTraced (log_session_done now m)
  unfolding log_session_done
  log_session_done-IsTraced now m h = reported _ _ _ _ h
