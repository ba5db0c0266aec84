-- ===== src/Server/Many/Fair/Unsent.antt =====
-- brain/ws_server.py: a round of the handler whose messages cannot be sent, and the counts
use nubjuk_brain.Prelude.{ℕ, ◌≤◌, ◌≡◌, refl, Bool, true, false, Option, none, some, arith, if-intro}
use nubjuk_brain.Errors.{StiError, Result, ok, raise}
use nubjuk_brain.Pipeline.{Bytes, StiPipeline}
use nubjuk_brain.Session
use nubjuk_brain.Session.{SessionManager, start_result, transition, write_log}
use nubjuk_brain.Server.{
  Server, Connection, Raw, ClientMessage, is_full, disconnect, binary, unsupported, invalid,
  message, session_start, session_end, session_cancel, caught, enqueue_unsent, start_unsent,
  on_message_unsent, receive_unsent,
}
use nubjuk_brain.Server.Many.Fair.Counts.{runs, holds, IsWellFormed, IsFair, caught-IsFair}
use nubjuk_brain.Server.Many.Fair.Received.{receive-IsFair, on_message-IsFair, enqueue-IsFair}

module _ {P : Type 0} (ops : StiPipeline P) (maxsize : ℕ) where
  pub enqueue_unsent-IsFair :
      (frame : Bytes) (e : Option StiError) (s : Server P)
      → IsWellFormed s.connection
      → s.connection.started ≡ true
      → s.connection.returned ≡ false
      → IsFair ops maxsize s (enqueue_unsent ops maxsize frame e s)
  unfolding enqueue_unsent
  enqueue_unsent-IsFair frame (some e) s f a r = caught-IsFair ops maxsize s _ _ f refl r refl
  enqueue_unsent-IsFair frame none s f a r =
      if-intro (IsFair ops maxsize s) (is_full maxsize s.connection.audio_queue)
        (λ _. caught-IsFair ops maxsize s _ _ f refl r refl)
        (λ _. enqueue-IsFair ops maxsize frame none s f a r)

  -- a start that is not acknowledged: the lock, if it was taken, is not counted on
  pub start_unsent-IsFair :
      (r : Result (Unit {0})) (s : Server P) (c : Connection) (m : SessionManager P)
      → s.connection.started ≡ false
      → s.connection.returned ≡ false
      → c.waiting ≡ none
      → c.started ≡ false
      → s.manager.locked ≡ false
      → IsFair ops maxsize s (
          start_unsent ops
            (start_result r m).0
            (record { connection = c; manager = (start_result r m).1 }))
  unfolding start_unsent start_result caught
  start_unsent-IsFair (ok _) s c m a r w b k = record {
    balance = ground arith;
    formed = ground arith;
  }
  start_unsent-IsFair (raise e) s c m a r w b k = record {
    balance = ground arith;
    formed = ground arith;
  }

  pub on_message_unsent-IsFair :
      (now : ℕ) (m : ClientMessage) (s : Server P)
      → IsWellFormed s.connection
      → s.connection.returned ≡ false
      → s.connection.waiting ≡ none
      → runs s.connection ≤ holds s.manager
      → IsFair ops maxsize s (on_message_unsent ops now m s)
  unfolding on_message_unsent Session.try_start
  on_message_unsent-IsFair now (session_start opts) s f r w h =
      let c = record s.connection { correlation_id = opts.correlation_id } in
      if-intro
        (λ (x : Result Bool × SessionManager P).
          IsFair ops maxsize s (start_unsent ops x.0 (record { connection = c; manager = x.1 })))
        s.manager.locked
        (λ l. unfold start_unsent in caught-IsFair ops maxsize s c s.manager f refl r refl)
        (λ l.
          let idle : s.connection.started ≡ false = ground arith in
          start_unsent-IsFair _ s c _ idle r w idle l)
  on_message_unsent-IsFair now (session_end id n) s f r w h =
      if-intro (IsFair ops maxsize s) s.connection.started
        (λ _. on_message-IsFair ops maxsize now (session_end id n) s r w h)
        (λ _. caught-IsFair ops maxsize s _ _ f refl r refl)
  on_message_unsent-IsFair now (session_cancel id) s f r w h =
      if-intro (IsFair ops maxsize s) s.connection.started
        (λ _. on_message-IsFair ops maxsize now (session_cancel id) s r w h)
        (λ _. caught-IsFair ops maxsize s _ _ f refl r refl)

  pub receive_unsent-IsFair :
      (now : ℕ) (raw : Raw) (s : Server P)
      → IsWellFormed s.connection
      → s.connection.returned ≡ false
      → s.connection.waiting ≡ none
      → runs s.connection ≤ holds s.manager
      → IsFair ops maxsize s (receive_unsent ops maxsize now raw s)
  unfolding receive_unsent
  receive_unsent-IsFair now disconnect s f r w h =
      receive-IsFair ops maxsize now disconnect s f r w h
  receive_unsent-IsFair now (binary frame) s f r w h =
      if-intro (IsFair ops maxsize s) s.connection.started
        (λ a. enqueue_unsent-IsFair frame s.connection.audio_error s f a r)
        (λ _. caught-IsFair ops maxsize s _ _ f refl r refl)
  receive_unsent-IsFair now unsupported s f r w h = caught-IsFair ops maxsize s _ _ f refl r refl
  receive_unsent-IsFair now (invalid id text) s f r w h =
      caught-IsFair ops maxsize s _ _ f refl r refl
  receive_unsent-IsFair now (message m) s f r w h = on_message_unsent-IsFair now m s f r w h
