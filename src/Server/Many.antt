-- ===== src/Server/Many.antt =====
-- brain/ws_server.py: the connections of one server, which share its session manager
pub mod Fair
pub mod Single
pub mod First
use nubjuk_brain.Prelude.{ℕ, zero, suc, List, [], ◌∷◌, ◌++◌}
use nubjuk_brain.Pipeline.{StiPipeline}
use nubjuk_brain.Session.{SessionManager, new_manager}
use nubjuk_brain.Server.{Connection, Event, accepted, step}

-- `app.state.manager` and the connections, in the order in which they were accepted
pub record App (P : Type 0) : Type 0 where
  pub connections : List Connection
  pub manager : SessionManager P

-- A new connection, or an event of the connection at an index.
pub data Turn : Type 0 where
  connect : Turn
  on : ℕ → Event → Turn

-- the app as `lifespan` makes it
unfoldable pub new_app : {P : Type 0} → ℕ → P → App P
new_app now p = record { connections = []; manager = new_manager now p }

module _ {P : Type 0} (ops : StiPipeline P) (maxsize : ℕ) where
  unfoldable pub step_at :
      ℕ → Event → List Connection → SessionManager P → List Connection × SessionManager P
  step_at i e [] m = ([], m)
  step_at zero e (c ∷ cs) m =
      let s = step ops maxsize e (record { connection = c; manager = m }) in
      (s.connection ∷ cs, s.manager)
  step_at (suc i) e (c ∷ cs) m = let (rest, n) = step_at i e cs m in (c ∷ rest, n)

  unfoldable pub take_turn : Turn → App P → App P
  take_turn Turn.connect a = record a { connections = a.connections ++ accepted ∷ [] }
  take_turn (Turn.on i e) a =
      let (cs, m) = step_at i e a.connections a.manager in record { connections = cs; manager = m }

  unfoldable pub take_turns : List Turn → App P → App P
  take_turns [] a = a
  take_turns (t ∷ turns) a = take_turns turns (take_turn t a)
