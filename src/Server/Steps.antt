-- ===== src/Server/Steps.antt =====
-- brain/ws_server.py: the handler of a connection and its worker, as steps
use nubjuk_brain.Prelude.{
  ℕ, String, Bool, true, false, ◌||◌, Option, none, some, List, [], ◌∷◌, if◌then◌else◌,
}
use nubjuk_brain.Pipeline.{StiPipeline}
use nubjuk_brain.Server.State.{Raw, Server}
use nubjuk_brain.Server.Handler.{receive, receive_unsent}
use nubjuk_brain.Server.Worker.{work}
use nubjuk_brain.Server.Ending.{drained}

-- What happens next: the handler receives, what it sends for that being taken or not; the worker
-- feeds a frame; or a waiting handler looks at the queue, and its answer can be sent or not.
pub data Event : Type 0 where
  received : ℕ → Raw → Event
  unsent : ℕ → Raw → Event
  worked : Event
  looked : ℕ → Bool → Event

abbrev pub is_waiting : Option (String × ℕ) → Bool
is_waiting none = false
is_waiting (some _) = true

module _ {P : Type 0} (ops : StiPipeline P) (maxsize : ℕ) where
  -- a handler that has returned or waits receives nothing
  unfoldable pub step : Event → Server P → Server P
  step (received now raw) s =
      if s.connection.returned || is_waiting s.connection.waiting
      then s
      else receive ops maxsize now raw s
  step (unsent now raw) s =
      if s.connection.returned || is_waiting s.connection.waiting
      then s
      else receive_unsent ops maxsize now raw s
  step worked s = work ops s
  step (looked now delivered) s =
      if s.connection.returned then s else drained ops now delivered s.connection.waiting s

  unfoldable pub serve : List Event → Server P → Server P
  serve [] s = s
  serve (e ∷ events) s = serve events (step e s)
