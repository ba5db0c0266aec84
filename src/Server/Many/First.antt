-- ===== src/Server/Many/First.antt =====
-- brain/ws_server.py: the first connection of an app
use nubjuk_brain.Prelude.{ℕ, ◌≡◌, refl, String, true, false, List, [], ◌∷◌, map}
use nubjuk_brain.Pipeline.{StiResult, StiPipeline}
use nubjuk_brain.Session.{idle, new_manager}
use nubjuk_brain.Server.{Server, Connection, Reply, Event, accepted, step, serve}
use nubjuk_brain.Server.Many.{App, Turn, connect, new_app, step_at, take_turn, take_turns}

-- one connection, and its events
abbrev pub first_turns : List Event → List Turn
first_turns events = connect ∷ map (Turn.on 0) events

-- The only connection was sent an ack and the intent with the result, and no more; its handler has
-- returned; and the manager is at rest.
pub record IsAnswered {P : Type 0} (id : String) (result : StiResult) (a : App P) : Type 0 where
  pub connections :
      (c : Connection) × (a.connections ≡ c ∷ [])
      × (c.sent ≡ Reply.ack id ∷ Reply.intent id result ∷ [])
      × (c.returned ≡ true)
  pub state : a.manager.state ≡ idle
  pub locked : a.manager.locked ≡ false

module _ {P : Type 0} (ops : StiPipeline P) (maxsize : ℕ) where
  take_turns-serve :
      (events : List Event) (s : Server P)
      → take_turns ops maxsize
          (map (Turn.on 0) events)
          (record { connections = s.connection ∷ []; manager = s.manager })
        ≡ record {
          connections = (serve ops maxsize events s).connection ∷ [];
          manager = (serve ops maxsize events s).manager;
        }
  unfolding take_turns take_turn step_at serve
  take_turns-serve [] s = refl
  take_turns-serve (e ∷ events) s = take_turns-serve events (step ops maxsize e s)

  pub first_turns-IsAnswered :
      (events : List Event) (now : ℕ) (p : P) (id : String) (result : StiResult)
      → ((serve ops maxsize events
            (record { connection = accepted; manager = new_manager now p })).connection.sent
          ≡ Reply.ack id ∷ Reply.intent id result ∷ [])
      → ((serve ops maxsize events
            (record { connection = accepted; manager = new_manager now p })).connection.returned
          ≡ true)
      → ((serve ops maxsize events
            (record { connection = accepted; manager = new_manager now p })).manager.state
          ≡ idle)
      → ((serve ops maxsize events
            (record { connection = accepted; manager = new_manager now p })).manager.locked
          ≡ false)
      → IsAnswered id result (take_turns ops maxsize (first_turns events) (new_app now p))
  unfolding take_turns take_turn new_app
  first_turns-IsAnswered events now p id result sent returned state locked =
      rw (take_turns-serve events (record { connection = accepted; manager = new_manager now p }))
        (record { connections = (_, refl, sent, returned); state = state; locked = locked })
