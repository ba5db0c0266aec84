-- ===== src/Server/Queue.antt =====
-- brain/ws_server.py: the bound of the audio queue
use nubjuk_brain.Prelude.{
  ℕ, ◌≤◌, ◌<◌, ◌≡◌, refl, String, Bool, true, false, Option, none, some, List, [], ◌∷◌, length,
  length-append, arith, if-intro,
}
use nubjuk_brain.Errors.{StiError, Result, ok, raise, sti, cancelled_error, runtime}
use nubjuk_brain.Pipeline.{Bytes, StiResult, StiPipeline}
use nubjuk_brain.Session
use nubjuk_brain.Server.{
  Server, Connection, Raw, ClientMessage, Event, is_full, refuse_frame, enqueue, answer_start,
  on_start, on_message, receive, fed, feed_next, work, answer_end, finish_or_cancel, after_finish,
  end_session, drained, step, serve, disconnect, binary, unsupported, invalid, message,
  session_start, session_end, session_cancel, received, unsent, worked, looked, caught,
  enqueue_unsent, start_unsent, on_message_unsent, receive_unsent,
}

module _ {P : Type 0} (ops : StiPipeline P) (maxsize : ℕ) (bounded : 0 < maxsize) where
  abbrev Within : Server P → Type 0
  Within s = length s.connection.audio_queue ≤ maxsize

  enqueue-Within :
      (frame : Bytes) (e : Option StiError) (s : Server P)
      → Within s
      → Within (enqueue ops maxsize frame e s)
  unfolding enqueue refuse_frame is_full
  enqueue-Within frame (some e) s h = h
  enqueue-Within frame none s h =
      ground (arith, length-append s.connection.audio_queue (frame ∷ []))

  answer_start-queue :
      (id : String) (r : Result Bool) (c : Connection)
      → (answer_start ops id r c).audio_queue ≡ c.audio_queue
  unfolding answer_start
  answer_start-queue id (ok true) c = refl
  answer_start-queue id (ok false) c = refl
  answer_start-queue id (raise e) c = refl

  on_message-Within :
      (now : ℕ) (m : ClientMessage) (s : Server P) → Within s → Within (on_message ops now m s)
  unfolding on_message on_start
  on_message-Within now (session_start opts) s h = rw answer_start-queue h
  on_message-Within now (session_end id n) s h = if-intro Within _ (λ _. h) (λ _. h)
  on_message-Within now (session_cancel id) s h = if-intro Within _ (λ _. h) (λ _. h)

  receive-Within :
      (now : ℕ) (raw : Raw) (s : Server P) → Within s → Within (receive ops maxsize now raw s)
  unfolding receive
  receive-Within now disconnect s h = if-intro Within _ (λ _. h) (λ _. h)
  receive-Within now (binary frame) s h =
      if-intro Within _ (λ _. enqueue-Within frame s.connection.audio_error s h) (λ _. h)
  receive-Within now unsupported s h = h
  receive-Within now (invalid id text) s h = h
  receive-Within now (message m) s h = on_message-Within now m s h

  caught-Within : (s : Server P) → Within s → Within (caught ops s)
  unfolding caught
  caught-Within s h = if-intro Within s.connection.started (λ _. h) (λ _. h)

  enqueue_unsent-Within :
      (frame : Bytes) (e : Option StiError) (s : Server P)
      → Within s
      → Within (enqueue_unsent ops maxsize frame e s)
  unfolding enqueue_unsent
  enqueue_unsent-Within frame (some e) s h = caught-Within _ h
  enqueue_unsent-Within frame none s h =
      if-intro Within (is_full maxsize s.connection.audio_queue) (λ _. caught-Within _ h)
        (λ _. enqueue-Within frame none s h)

  start_unsent-Within : (r : Result Bool) (s : Server P) → Within s → Within (start_unsent ops r s)
  unfolding start_unsent
  start_unsent-Within (ok true) s h = caught-Within _ h
  start_unsent-Within (ok false) s h = caught-Within s h
  start_unsent-Within (raise e) s h = h

  on_message_unsent-Within :
      (now : ℕ) (m : ClientMessage) (s : Server P)
      → Within s
      → Within (on_message_unsent ops now m s)
  unfolding on_message_unsent
  on_message_unsent-Within now (session_start opts) s h =
      start_unsent-Within (Session.try_start ops now opts s.manager).0 _ h
  on_message_unsent-Within now (session_end id n) s h =
      if-intro Within s.connection.started (λ _. on_message-Within now (session_end id n) s h)
        (λ _. caught-Within s h)
  on_message_unsent-Within now (session_cancel id) s h =
      if-intro Within s.connection.started (λ _. on_message-Within now (session_cancel id) s h)
        (λ _. caught-Within s h)

  receive_unsent-Within :
      (now : ℕ) (raw : Raw) (s : Server P)
      → Within s
      → Within (receive_unsent ops maxsize now raw s)
  unfolding receive_unsent
  receive_unsent-Within now disconnect s h = receive-Within now disconnect s h
  receive_unsent-Within now (binary frame) s h =
      if-intro Within s.connection.started
        (λ _. enqueue_unsent-Within frame s.connection.audio_error s h) (λ _. caught-Within s h)
  receive_unsent-Within now unsupported s h = caught-Within s h
  receive_unsent-Within now (invalid id text) s h = caught-Within s h
  receive_unsent-Within now (message m) s h = on_message_unsent-Within now m s h

  fed-queue : (r : Result (Unit {0})) (c : Connection) → (fed ops r c).audio_queue ≡ c.audio_queue
  unfolding fed
  fed-queue (ok _) c = refl
  fed-queue (raise (sti e)) c = refl
  fed-queue (raise (runtime x)) c = refl
  fed-queue (raise cancelled_error) c = refl

  feed_next-Within :
      (q : List Bytes) (s : Server P) → length q ≤ maxsize → Within s → Within (feed_next ops q s)
  unfolding feed_next
  feed_next-Within [] s k h = h
  feed_next-Within (frame ∷ q) s k h = rw fed-queue (omega arith)

  answer_end-Within :
      (now : ℕ) (delivered : Bool) (id : String) (r : Result StiResult) (s : Server P)
      → Within s
      → Within (answer_end ops now delivered id r s)
  unfolding answer_end finish_or_cancel after_finish
  answer_end-Within now true id (ok result) s h = h
  answer_end-Within now false id (ok result) s h = h
  answer_end-Within now true id (raise (sti e)) s h = h
  answer_end-Within now true id (raise cancelled_error) s h = h
  answer_end-Within now true id (raise (runtime x)) s h = h
  answer_end-Within now false id (raise (sti e)) s h = caught-Within _ h
  answer_end-Within now false id (raise cancelled_error) s h = h
  answer_end-Within now false id (raise (runtime x)) s h = h

  end_session-Within :
      (now : ℕ) (delivered : Bool) (id : String) (n : ℕ) (e : Option StiError) (q : List Bytes)
      (s : Server P)
      → Within s
      → Within (end_session ops now delivered id n e q s)
  unfolding end_session
  end_session-Within now true id n (some x) q s h = h
  end_session-Within now false id n (some x) q s h = caught-Within s h
  end_session-Within now true id n none [] s h = answer_end-Within now true id _ _ h
  end_session-Within now false id n none [] s h = answer_end-Within now false id _ _ h
  end_session-Within now true id n none (frame ∷ q) s h = h
  end_session-Within now false id n none (frame ∷ q) s h = h

  drained-Within :
      (now : ℕ) (delivered : Bool) (w : Option (String × ℕ)) (s : Server P)
      → Within s
      → Within (drained ops now delivered w s)
  unfolding drained
  drained-Within now delivered none s h = h
  drained-Within now delivered (some (id, n)) s h =
      end_session-Within now delivered id n s.connection.audio_error s.connection.audio_queue s h

  step-Within : (e : Event) (s : Server P) → Within s → Within (step ops maxsize e s)
  unfolding step work
  step-Within (received now raw) s h = if-intro Within _ (λ _. h) (λ _. receive-Within now raw s h)
  step-Within (unsent now raw) s h =
      if-intro Within _ (λ _. h) (λ _. receive_unsent-Within now raw s h)
  step-Within worked s h =
      if-intro Within _ (λ _. feed_next-Within s.connection.audio_queue s h h) (λ _. h)
  step-Within (looked now delivered) s h =
      if-intro Within _ (λ _. h) (λ _. drained-Within now delivered s.connection.waiting s h)

  -- With a positive maximum size, the queue of audio frames never holds more frames than it, after
  -- any events of the connection, in any order.
  pub serve-within :
      (events : List Event) (s : Server P)
      → length s.connection.audio_queue ≤ maxsize
      → length (serve ops maxsize events s).connection.audio_queue ≤ maxsize
  unfolding serve
  serve-within [] s h = h
  serve-within (e ∷ events) s h = serve-within events (step ops maxsize e s) (step-Within e s h)
