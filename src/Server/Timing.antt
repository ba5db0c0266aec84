-- ===== src/Server/Timing.antt =====
-- brain/ws_server.py: the orders in which a handler receives what its client sends, while the worker
-- feeds what is queued, in its own time
use nubjuk_brain.Prelude.{ℕ, zero, suc, ◌<◌, ◌≡◌, ◌⊎◌, Bool, true, List, [], ◌∷◌}
use nubjuk_brain.Pipeline.{Bytes, StiPipeline}
use nubjuk_brain.Errors.{ok}
use nubjuk_brain.Session
use nubjuk_brain.Session.{SessionManager}
use nubjuk_brain.Server.{Event, received, unsent, worked, looked, Raw}

-- Events of a handler that waits for its queue of n frames: rounds of the worker, also those that find
-- nothing, and looks at the queue, until a look finds it empty; `delivered` is whether what that look
-- sends is taken. Nothing is received meanwhile.
abbrev pub IsDrained : Bool → ℕ → List Event → Type 0
IsDrained delivered n [] = ⊥
IsDrained delivered zero (worked ∷ es) = IsDrained delivered zero es
IsDrained delivered (suc n) (worked ∷ es) = IsDrained delivered n es
IsDrained delivered zero (looked now taken ∷ es) = (taken ≡ delivered) × (es ≡ [])
IsDrained delivered (suc n) (looked now taken ∷ es) = IsDrained delivered (suc n) es
IsDrained delivered n (received now raw ∷ es) = ⊥
IsDrained delivered n (unsent now raw ∷ es) = ⊥

-- A queue of n frames takes another one; a size of 0 is no bound.
abbrev pub HasRoom : ℕ → ℕ → Type 0
HasRoom maxsize n = (maxsize ≡ 0) ⊎ (n < maxsize)

-- A frame is received where the queue has room for it.
abbrev pub Fits : ℕ → ℕ → Raw → Type 0
Fits maxsize n (Raw.binary frame) = HasRoom maxsize n
Fits maxsize n _ = Unit

-- the length of the queue behind a message
abbrev pub queued : ℕ → Raw → ℕ
queued n (Raw.binary frame) = suc n
queued n _ = n

-- Events in which the messages are received one after another, at any times, and with any rounds of
-- the worker before, between and behind them, n frames being queued, and the queue is drained behind
-- the last one. The client may send any number of frames before the worker feeds the first of them,
-- as long as the queue has room.
abbrev pub IsScheduled : ℕ → ℕ → List Raw → List Event → Type 0
IsScheduled maxsize n [] es = IsDrained true n es
IsScheduled maxsize n (raw ∷ raws) [] = ⊥
IsScheduled maxsize zero (raw ∷ raws) (worked ∷ es) = IsScheduled maxsize zero (raw ∷ raws) es
IsScheduled maxsize (suc n) (raw ∷ raws) (worked ∷ es) = IsScheduled maxsize n (raw ∷ raws) es
IsScheduled maxsize n (raw ∷ raws) (received now got ∷ es) =
    (got ≡ raw) × Fits maxsize n raw × IsScheduled maxsize (queued n raw) raws es
IsScheduled maxsize n (raw ∷ raws) (looked now taken ∷ es) = ⊥
IsScheduled maxsize n (raw ∷ raws) (unsent now got ∷ es) = ⊥

module _ {P : Type 0} (ops : StiPipeline P) where
  -- the manager once the worker has fed the frames to it, in their order
  abbrev pub feed_frames : List Bytes → SessionManager P → SessionManager P
  feed_frames [] m = m
  feed_frames (frame ∷ rest) m = feed_frames rest (Session.feed_audio ops frame m).1

  -- The manager takes the frames, one after another, without an exception.
  abbrev pub AreFed : List Bytes → SessionManager P → Type 0
  AreFed [] m = Unit
  AreFed (frame ∷ rest) m =
      ((Session.feed_audio ops frame m).0 ≡ ok tt) × AreFed rest (Session.feed_audio ops frame m).1
