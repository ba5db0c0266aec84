-- ===== src/Server/Many/Fair.antt =====
-- brain/ws_server.py: what a step of one connection does to its session and to the lock
mod Counts
mod Received
mod Unsent
use nubjuk_brain.Prelude.{
  ℕ, ◌+◌, ◌≤◌, ◌≡◌, ◌∙◌, refl, String, Bool, true, false, ◌&&◌, ◌||◌, not, Option, none, some, List,
  [], ◌∷◌, arith, if◌then◌else◌, if-intro,
}
use nubjuk_brain.Errors.{StiError, Result, ok, raise, sti, cancelled_error, runtime}
use nubjuk_brain.Pipeline.{Bytes, StiResult, SessionOpts, StiPipeline}
use nubjuk_brain.Session
use nubjuk_brain.Session.{SessionManager, start_result, transition, write_log}
use nubjuk_brain.Session.Quiet.{IsQuiet-feed_audio}
use nubjuk_brain.Server.{
  Server, Connection, Raw, ClientMessage, Event, is_waiting, is_full, refuse_frame, enqueue,
  answer_start, on_start, on_message, receive, fed, feed_next, work, answer_end, finish_or_cancel,
  after_finish, end_session, drained, step, disconnect, binary, unsupported, invalid, message,
  session_start, session_end, session_cancel, received, unsent, worked, looked, caught,
  enqueue_unsent, start_unsent, on_message_unsent, receive_unsent,
}
use nubjuk_brain.Server.Many.Fair.Counts.{
  runs, holds, IsWellFormed, IsFair, not_waiting, leaves, stays, caught-IsFair,
  caught_running-IsFair,
}
use nubjuk_brain.Server.Many.Fair.Received.{receive-IsFair}
use nubjuk_brain.Server.Many.Fair.Unsent.{receive_unsent-IsFair}
pub use Counts.*

module _ {P : Type 0} (ops : StiPipeline P) (maxsize : ℕ) where
  fed-IsFair :
      (r : Result (Unit {0})) (s : Server P) (c : Connection) (m : SessionManager P)
      → IsWellFormed s.connection
      → c.started ≡ s.connection.started
      → c.returned ≡ s.connection.returned
      → c.waiting ≡ s.connection.waiting
      → m.locked ≡ s.manager.locked
      → IsFair ops maxsize s (record { connection = fed ops r c; manager = m })
  unfolding fed
  fed-IsFair (ok _) s c m f a b w l = stays ops maxsize s c m f a b w l
  fed-IsFair (raise (sti e)) s c m f a b w l = stays ops maxsize s _ m f a b w l
  fed-IsFair (raise (runtime x)) s c m f a b w l = stays ops maxsize s _ m f a b w l
  fed-IsFair (raise cancelled_error) s c m f a b w l = stays ops maxsize s _ m f a b w l

  feed_next-IsFair :
      (q : List Bytes) (s : Server P)
      → IsWellFormed s.connection
      → IsFair ops maxsize s (feed_next ops q s)
  unfolding feed_next
  feed_next-IsFair [] s f = stays ops maxsize s s.connection s.manager f refl refl refl refl
  feed_next-IsFair (frame ∷ q) s f =
      fed-IsFair _ s _ _ f refl refl refl (IsQuiet-feed_audio ops frame s.manager).locked

  answer_end-IsFair :
      (now : ℕ) (delivered : Bool) (id : String) (r : Result StiResult) (s : Server P)
      (m : SessionManager P)
      → s.connection.started ≡ true
      → s.connection.returned ≡ false
      → IsFair ops maxsize s (answer_end ops now delivered id r (record s { manager = m }))
  unfolding answer_end finish_or_cancel after_finish
  answer_end-IsFair now true id (ok result) s m a r = leaves ops maxsize s _ _ a r a refl
  answer_end-IsFair now false id (ok result) s m a r = leaves ops maxsize s _ _ a r a refl
  answer_end-IsFair now true id (raise (sti e)) s m a r = leaves ops maxsize s _ _ a r a refl
  answer_end-IsFair now true id (raise cancelled_error) s m a r =
      leaves ops maxsize s _ _ a r a refl
  answer_end-IsFair now true id (raise (runtime x)) s m a r = leaves ops maxsize s _ _ a r a refl
  answer_end-IsFair now false id (raise (sti e)) s m a r =
      caught_running-IsFair ops maxsize s _ _ a r a
  answer_end-IsFair now false id (raise cancelled_error) s m a r =
      leaves ops maxsize s _ _ a r a refl
  answer_end-IsFair now false id (raise (runtime x)) s m a r = leaves ops maxsize s _ _ a r a refl

  end_session-IsFair :
      (now : ℕ) (delivered : Bool) (id : String) (n : ℕ) (e : Option StiError) (q : List Bytes)
      (s : Server P)
      → IsWellFormed s.connection
      → s.connection.started ≡ true
      → s.connection.returned ≡ false
      → IsFair ops maxsize s (end_session ops now delivered id n e q s)
  unfolding end_session
  end_session-IsFair now true id n (some x) q s f a r = leaves ops maxsize s _ _ a r a refl
  end_session-IsFair now false id n (some x) q s f a r =
      caught_running-IsFair ops maxsize s _ _ a r a
  end_session-IsFair now true id n none [] s f a r = answer_end-IsFair now true id _ s _ a r
  end_session-IsFair now false id n none [] s f a r = answer_end-IsFair now false id _ s _ a r
  end_session-IsFair now true id n none (frame ∷ q) s f a r =
      stays ops maxsize s s.connection s.manager f refl refl refl refl
  end_session-IsFair now false id n none (frame ∷ q) s f a r =
      stays ops maxsize s s.connection s.manager f refl refl refl refl

  drained-IsFair :
      (now : ℕ) (delivered : Bool) (w : Option (String × ℕ)) (s : Server P)
      → IsWellFormed s.connection
      → s.connection.waiting ≡ w
      → s.connection.returned ≡ false
      → IsFair ops maxsize s (drained ops now delivered w s)
  unfolding drained
  drained-IsFair now delivered none s f w r =
      stays ops maxsize s s.connection s.manager f refl refl refl refl
  drained-IsFair now delivered (some (id, n)) s f w r =
      end_session-IsFair now delivered id n s.connection.audio_error s.connection.audio_queue s f
        (ground arith) r

  pub step-IsFair :
      (e : Event) (s : Server P)
      → IsWellFormed s.connection
      → runs s.connection ≤ holds s.manager
      → IsFair ops maxsize s (step ops maxsize e s)
  unfolding step work
  step-IsFair (received now raw) s f h =
      if-intro (IsFair ops maxsize s) (s.connection.returned || is_waiting s.connection.waiting)
        (λ _. stays ops maxsize s s.connection s.manager f refl refl refl refl)
        (λ b.
          receive-IsFair ops maxsize now raw s f (ground arith)
            (not_waiting s.connection.waiting (ground arith)) h)
  step-IsFair (unsent now raw) s f h =
      if-intro (IsFair ops maxsize s) (s.connection.returned || is_waiting s.connection.waiting)
        (λ _. stays ops maxsize s s.connection s.manager f refl refl refl refl)
        (λ b.
          receive_unsent-IsFair ops maxsize now raw s f (ground arith)
            (not_waiting s.connection.waiting (ground arith)) h)
  step-IsFair worked s f h =
      if-intro (IsFair ops maxsize s) s.connection.working
        (λ _. feed_next-IsFair s.connection.audio_queue s f)
        (λ _. stays ops maxsize s s.connection s.manager f refl refl refl refl)
  step-IsFair (looked now delivered) s f h =
      if-intro (IsFair ops maxsize s) s.connection.returned
        (λ _. stays ops maxsize s s.connection s.manager f refl refl refl refl)
        (λ r. drained-IsFair now delivered s.connection.waiting s f refl r)
