-- ===== src/Server/Many/Fair/Received.antt =====
-- brain/ws_server.py: a round of the handler and the counts
use nubjuk_brain.Prelude.{
  ℕ, ◌≤◌, ◌≡◌, refl, String, Bool, true, false, Option, none, some, arith, if-intro,
}
use nubjuk_brain.Errors.{StiError, Result, ok, raise}
use nubjuk_brain.Pipeline.{Bytes, SessionOpts, StiPipeline}
use nubjuk_brain.Session
use nubjuk_brain.Session.{SessionManager, start_result, transition, write_log}
use nubjuk_brain.Server.{
  Server, Connection, Raw, ClientMessage, is_full, refuse_frame, enqueue, answer_start, on_start,
  on_message, receive, disconnect, binary, unsupported, invalid, message, session_start,
  session_end, session_cancel,
}
use nubjuk_brain.Server.Many.Fair.Counts.{runs, holds, IsWellFormed, IsFair, leaves, stays}

module _ {P : Type 0} (ops : StiPipeline P) (maxsize : ℕ) where
  pub start_result-IsFair :
      (id : String) (r : Result (Unit {0})) (s : Server P) (c : Connection) (m : SessionManager P)
      → s.connection.started ≡ false
      → s.connection.returned ≡ false
      → c.waiting ≡ none
      → c.started ≡ false
      → m.locked ≡ true
      → s.manager.locked ≡ false
      → IsFair ops maxsize s (record {
        connection = answer_start ops id (start_result r m).0 c;
        manager = (start_result r m).1;
      })
  unfolding answer_start start_result transition write_log
  start_result-IsFair id (ok _) s c m a r w b l k = record {
    balance = ground arith;
    formed = ground arith;
  }
  start_result-IsFair id (raise e) s c m a r w b l k = record {
    balance = ground arith;
    formed = ground arith;
  }

  pub on_start-IsFair :
      (now : ℕ) (opts : SessionOpts) (s : Server P)
      → s.connection.returned ≡ false
      → s.connection.waiting ≡ none
      → runs s.connection ≤ holds s.manager
      → IsFair ops maxsize s (on_start ops now opts s)
  unfolding on_start Session.try_start
  on_start-IsFair now opts s r w h =
      let c = record s.connection { correlation_id = opts.correlation_id } in
      if-intro
        (λ (x : Result Bool × SessionManager P).
          IsFair ops maxsize s
            (record { connection = answer_start ops opts.correlation_id x.0 c; manager = x.1 }))
        s.manager.locked
        (λ l. unfold answer_start in record { balance = ground arith; formed = ground arith })
        (λ l.
          let idle : s.connection.started ≡ false = ground arith in
          start_result-IsFair opts.correlation_id _ s _ _ idle r w idle refl l)

  pub on_message-IsFair :
      (now : ℕ) (m : ClientMessage) (s : Server P)
      → s.connection.returned ≡ false
      → s.connection.waiting ≡ none
      → runs s.connection ≤ holds s.manager
      → IsFair ops maxsize s (on_message ops now m s)
  unfolding on_message
  on_message-IsFair now (session_start opts) s r w h = on_start-IsFair now opts s r w h
  on_message-IsFair now (session_end id n) s r w h =
      if-intro (IsFair ops maxsize s) s.connection.started
        (λ a. record { balance = ground arith; formed = ground arith })
        (λ a. record { balance = ground arith; formed = ground arith })
  on_message-IsFair now (session_cancel id) s r w h =
      if-intro (IsFair ops maxsize s) s.connection.started
        (λ a. leaves ops maxsize s _ _ a r a refl)
        (λ a. record { balance = ground arith; formed = ground arith })

  pub enqueue-IsFair :
      (frame : Bytes) (e : Option StiError) (s : Server P)
      → IsWellFormed s.connection
      → s.connection.started ≡ true
      → s.connection.returned ≡ false
      → IsFair ops maxsize s (enqueue ops maxsize frame e s)
  unfolding enqueue refuse_frame
  enqueue-IsFair frame (some e) s f a r = leaves ops maxsize s _ _ a r a refl
  enqueue-IsFair frame none s f a r =
      if-intro (IsFair ops maxsize s) (is_full maxsize s.connection.audio_queue)
        (λ _. leaves ops maxsize s _ _ a r a refl)
        (λ _. stays ops maxsize s _ _ f refl refl refl refl)

  pub receive-IsFair :
      (now : ℕ) (raw : Raw) (s : Server P)
      → IsWellFormed s.connection
      → s.connection.returned ≡ false
      → s.connection.waiting ≡ none
      → runs s.connection ≤ holds s.manager
      → IsFair ops maxsize s (receive ops maxsize now raw s)
  unfolding receive
  receive-IsFair now disconnect s f r w h =
      if-intro (IsFair ops maxsize s) s.connection.started
        (λ a. leaves ops maxsize s _ _ a r a refl)
        (λ a. record { balance = ground arith; formed = ground arith })
  receive-IsFair now (binary frame) s f r w h =
      if-intro (IsFair ops maxsize s) s.connection.started
        (λ a. enqueue-IsFair frame s.connection.audio_error s f a r)
        (λ _. stays ops maxsize s _ _ f refl refl refl refl)
  receive-IsFair now unsupported s f r w h = stays ops maxsize s _ _ f refl refl refl refl
  receive-IsFair now (invalid id text) s f r w h = stays ops maxsize s _ _ f refl refl refl refl
  receive-IsFair now (message m) s f r w h = on_message-IsFair now m s r w h
