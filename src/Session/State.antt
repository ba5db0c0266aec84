-- ===== src/Session/State.antt =====
-- brain/session.py: the states, the statistics, the manager's fields, and what it logs. Times are
-- milliseconds of the monotonic clock, passed in as `now`.
use nubjuk_brain.Prelude.{
  ℕ, ◌-◌, ◌*◌, ◌++◌, String, Bool, true, false, Option, none, some, List, [], ◌∷◌, Text,
}
use nubjuk_brain.Pipeline.{SessionOpts}

abbrev pub expected_pcm_payload_bytes : ℕ
expected_pcm_payload_bytes = 640 * 2

pub data SessionState : Type 0 where
  idle audio_in processing done cancelled : SessionState

-- `.value`
abbrev pub value : SessionState → String
value idle = "idle"
value audio_in = "audio_in"
value processing = "processing"
value done = "done"
value cancelled = "cancelled"

-- `a is b`
infix 50 ◌is◌
abbrev pub ◌is◌ : SessionState → SessionState → Bool
idle is idle = true
audio_in is audio_in = true
processing is processing = true
done is done = true
cancelled is cancelled = true
_ is _ = false

-- The texts that `_warn` is given, with their numbers.
pub data Warning : Type 0 where
  frame_too_short : Warning
  seq_non_monotonic : ℕ → ℕ → Warning
  unknown_flags : ℕ → Warning
  reserved_nonzero : ℕ → Warning
  unexpected_pcm_bytes : ℕ → Warning
  frame_count_mismatch : ℕ → ℕ → Warning

pub record SessionStats : Type 0 where
  pub frames_observed : ℕ
  pub frames_reported : Option ℕ
  pub audio_bytes : ℕ
  pub frame_warnings : List Warning
  pub expected_seq : Option ℕ
  pub started_at : ℕ
  pub intent : Option Text

-- `SessionStats()`
abbrev pub new_stats : ℕ → SessionStats
new_stats now = record {
  frames_observed = 0;
  frames_reported = none;
  audio_bytes = 0;
  frame_warnings = [];
  expected_seq = none;
  started_at = now;
  intent = none;
}

-- The JSON lines that the manager logs.
pub data LogEntry : Type 0 where
  state_transition : String → SessionState → SessionState → String → LogEntry
  frame_warning : String → Warning → LogEntry
  session_done : String → SessionState → SessionStats → ℕ → LogEntry

pub record SessionManager (P : Type 0) : Type 0 where
  pub pipeline : P
  pub locked : Bool
  pub state : SessionState
  pub opts : Option SessionOpts
  pub stats : SessionStats
  pub log : List LogEntry

abbrev pub logged_id : Option SessionOpts → String
logged_id none = ""
logged_id (some o) = o.correlation_id

module _ {P : Type 0} where
  -- `SessionManager(pipeline)`
  unfoldable pub new_manager : ℕ → P → SessionManager P
  new_manager now p = record {
    pipeline = p;
    locked = false;
    state = idle;
    opts = none;
    stats = new_stats now;
    log = [];
  }

  unfoldable pub active : SessionManager P → Bool
  active m = m.locked

  unfoldable pub write_log : LogEntry → SessionManager P → SessionManager P
  write_log e m = record m { log = m.log ++ e ∷ [] }

  unfoldable pub transition : SessionState → String → SessionManager P → SessionManager P
  unfolding write_log
  transition next_state reason m =
      write_log (state_transition (logged_id m.opts) m.state next_state reason)
        (record m { state = next_state })

  unfoldable pub warn : Warning → SessionManager P → SessionManager P
  unfolding write_log
  warn w m =
      write_log (frame_warning (logged_id m.opts) w)
        (record m { stats = record m.stats { frame_warnings = m.stats.frame_warnings ++ w ∷ [] } })

  -- `int((now - started_at) * 1000)`, the clock already in milliseconds
  unfoldable pub log_session_done : ℕ → SessionManager P → SessionManager P
  unfolding write_log
  log_session_done now m =
      write_log (session_done (logged_id m.opts) m.state m.stats (now - m.stats.started_at)) m
