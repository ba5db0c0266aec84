-- ===== src/Server/Leaks/Rounds.antt =====
-- brain/ws_server.py: the ways out of a round of the handler
use nubjuk_brain.Prelude.{ℕ, refl, sym, subst, Bool, false, Option, none, some, arith, if-intro}
use nubjuk_brain.Errors.{StiError, Result}
use nubjuk_brain.Pipeline.{Bytes, StiPipeline}
use nubjuk_brain.Session
use nubjuk_brain.Session.{
  SessionManager, idle, audio_in, done, ◌is◌, cleanup, transition, write_log, log_session_done,
}
use nubjuk_brain.Session.Outcomes.{try_start_held}
use nubjuk_brain.Server.{
  Server, Raw, ClientMessage, is_full, refuse_frame, enqueue, answer_start, on_start, on_message,
  receive, disconnect, binary, unsupported, invalid, message, session_start, session_end,
  session_cancel, enqueue_unsent, start_unsent, on_message_unsent, receive_unsent,
}
use nubjuk_brain.Server.Leaks.Ways.{HasSession, is_start, still, Leaves, cancel_frees, caught_frees}

module _ {P : Type 0} (ops : StiPipeline P) (maxsize : ℕ) where
  pub on_message-Leaves :
      (now : ℕ) (m : ClientMessage) (s : Server P)
      → HasSession s
      → Leaves ops maxsize (is_start (message m)) (on_message ops now m s)
  unfolding on_message on_start Session.try_start answer_start
  on_message-Leaves now (session_start opts) s h = rw h.locked (λ _. refl)
  on_message-Leaves now (session_end id n) s h =
      if-intro (Leaves ops maxsize false) s.connection.started (λ _. still h.returned)
        (λ _. still h.returned)
  on_message-Leaves now (session_cancel id) s h =
      if-intro (Leaves ops maxsize false) s.connection.started
        (λ _ _. cancel_frees ops maxsize "session_cancel" s.manager h.settled)
        (λ _. still h.returned)

  pub enqueue-Leaves :
      (frame : Bytes) (e : Option StiError) (s : Server P)
      → HasSession s
      → Leaves ops maxsize false (enqueue ops maxsize frame e s)
  unfolding enqueue refuse_frame
  enqueue-Leaves frame (some e) s h =
      λ _. cancel_frees ops maxsize "pipeline_error" s.manager h.settled
  enqueue-Leaves frame none s h =
      if-intro (Leaves ops maxsize false) (is_full maxsize s.connection.audio_queue)
        (λ _ _. cancel_frees ops maxsize "pipeline_error" s.manager h.settled)
        (λ _. still h.returned)

  pub receive-Leaves :
      (now : ℕ) (raw : Raw) (s : Server P)
      → HasSession s
      → Leaves ops maxsize (is_start raw) (receive ops maxsize now raw s)
  unfolding receive
  receive-Leaves now disconnect s h =
      if-intro (Leaves ops maxsize false) s.connection.started
        (λ _ _. cancel_frees ops maxsize "websocket_disconnect" s.manager h.settled)
        (λ b. absurd (let a = h.started in ground arith))
  receive-Leaves now (binary frame) s h =
      if-intro (Leaves ops maxsize false) s.connection.started
        (λ _. enqueue-Leaves frame s.connection.audio_error s h) (λ _. still h.returned)
  receive-Leaves now unsupported s h = still h.returned
  receive-Leaves now (invalid id text) s h = still h.returned
  receive-Leaves now (message m) s h = on_message-Leaves now m s h

  pub enqueue_unsent-Leaves :
      (frame : Bytes) (e : Option StiError) (s : Server P)
      → HasSession s
      → Leaves ops maxsize false (enqueue_unsent ops maxsize frame e s)
  unfolding enqueue_unsent
  enqueue_unsent-Leaves frame (some e) s h = caught_frees ops maxsize _ h.started h.settled
  enqueue_unsent-Leaves frame none s h =
      if-intro (Leaves ops maxsize false) (is_full maxsize s.connection.audio_queue)
        (λ _. caught_frees ops maxsize _ h.started h.settled) (λ _. enqueue-Leaves frame none s h)

  pub on_message_unsent-Leaves :
      (now : ℕ) (m : ClientMessage) (s : Server P)
      → HasSession s
      → Leaves ops maxsize false (on_message_unsent ops now m s)
  unfolding on_message_unsent start_unsent
  on_message_unsent-Leaves now (session_start opts) s h =
      let c = record s.connection { correlation_id = opts.correlation_id } in
      subst
        (λ (x : Result Bool × SessionManager P).
          Leaves ops maxsize false
            (start_unsent ops x.0 (record { connection = c; manager = x.1 })))
        (sym (try_start_held ops now opts s.manager h.locked))
        (caught_frees ops maxsize (record { connection = c; manager = s.manager }) h.started
          h.settled)
  on_message_unsent-Leaves now (session_end id n) s h =
      if-intro (Leaves ops maxsize false) s.connection.started
        (λ _. on_message-Leaves now (session_end id n) s h)
        (λ _. caught_frees ops maxsize s h.started h.settled)
  on_message_unsent-Leaves now (session_cancel id) s h =
      if-intro (Leaves ops maxsize false) s.connection.started
        (λ _. on_message-Leaves now (session_cancel id) s h)
        (λ _. caught_frees ops maxsize s h.started h.settled)

  pub receive_unsent-Leaves :
      (now : ℕ) (raw : Raw) (s : Server P)
      → HasSession s
      → Leaves ops maxsize false (receive_unsent ops maxsize now raw s)
  unfolding receive_unsent
  receive_unsent-Leaves now disconnect s h = receive-Leaves now disconnect s h
  receive_unsent-Leaves now (binary frame) s h =
      if-intro (Leaves ops maxsize false) s.connection.started
        (λ _. enqueue_unsent-Leaves frame s.connection.audio_error s h)
        (λ _. caught_frees ops maxsize s h.started h.settled)
  receive_unsent-Leaves now unsupported s h = caught_frees ops maxsize s h.started h.settled
  receive_unsent-Leaves now (invalid id text) s h = caught_frees ops maxsize s h.started h.settled
  receive_unsent-Leaves now (message m) s h = on_message_unsent-Leaves now m s h
