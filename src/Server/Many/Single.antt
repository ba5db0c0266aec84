-- ===== src/Server/Many/Single.antt =====
-- brain/ws_server.py: how many connections have a session at a time
use nubjuk_brain.Prelude.{ℕ, zero, suc, ◌+◌, ◌≤◌, ◌≡◌, refl, ap, List, [], ◌∷◌, ◌++◌, All, arith}
use nubjuk_brain.Pipeline.{StiPipeline}
use nubjuk_brain.Session.{SessionManager}
use nubjuk_brain.Server.{Connection, Event, accepted}
use nubjuk_brain.Server.Many.{App, Turn, new_app, step_at, take_turn, take_turns}
use nubjuk_brain.Server.Many.Fair.{runs, holds, IsWellFormed, step-IsFair}

unfoldable pub running : List Connection → ℕ
running [] = 0
running (c ∷ cs) = runs c + running cs

module _ {P : Type 0} (ops : StiPipeline P) (maxsize : ℕ) where
  step_at_single :
      (i : ℕ) (e : Event) (cs : List Connection) (m : SessionManager P) (others : ℕ)
      → All IsWellFormed cs
      → others + running cs ≤ holds m
      → All IsWellFormed (step_at ops maxsize i e cs m).0
        × (others + running (step_at ops maxsize i e cs m).0
            ≤ holds (step_at ops maxsize i e cs m).1)
  unfolding step_at running
  step_at_single i e [] m others f h = (f, h)
  step_at_single zero e (c ∷ cs) m others f h =
      let fair =
        step-IsFair ops maxsize e (record { connection = c; manager = m }) f.0 (omega arith) in
      ((fair.formed, f.1), omega (arith, fair.balance))
  step_at_single (suc i) e (c ∷ cs) m others f h =
      let (g, k) = step_at_single i e cs m (others + runs c) f.1 (omega arith) in
      ((f.0, g), omega arith)

  running-append_accepted : (cs : List Connection) → running (cs ++ accepted ∷ []) ≡ running cs
  unfolding running
  running-append_accepted [] = refl
  running-append_accepted (c ∷ cs) = ap (◌+◌ (runs c)) (running-append_accepted cs)

  All-accepted :
      (cs : List Connection) → All IsWellFormed cs → All IsWellFormed (cs ++ accepted ∷ [])
  All-accepted [] f = (refl, tt)
  All-accepted (c ∷ cs) f = (f.0, All-accepted cs f.1)

  take_turns_single :
      (turns : List Turn) (a : App P)
      → All IsWellFormed a.connections
      → running a.connections ≤ holds a.manager
      → running (take_turns ops maxsize turns a).connections
        ≤ holds (take_turns ops maxsize turns a).manager
  unfolding take_turns take_turn
  take_turns_single [] a f h = h
  take_turns_single (Turn.connect ∷ turns) a f h =
      take_turns_single turns _ (All-accepted a.connections f) (rw running-append_accepted h)
  take_turns_single (Turn.on i e ∷ turns) a f h =
      let (g, k) = step_at_single i e a.connections a.manager 0 f (omega arith) in
      take_turns_single turns _ g (omega (arith, k))

  -- Whatever connections are accepted by a new app, and in whatever order their handlers and workers
  -- take steps, a `finish` being part of one step, which nothing interrupts: at most one of them has a
  -- session that its handler has not returned from, and none has one while the manager's lock is free.
  pub take_turns-single :
      (turns : List Turn) (now : ℕ) (p : P)
      → running (take_turns ops maxsize turns (new_app now p)).connections
        ≤ holds (take_turns ops maxsize turns (new_app now p)).manager
  unfolding new_app running
  take_turns-single turns now p = take_turns_single turns _ tt (omega arith)
