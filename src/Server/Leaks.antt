-- ===== src/Server/Leaks.antt =====
-- brain/ws_server.py: which ways out of the handler give the session up
mod Ways
mod Rounds
use nubjuk_brain.Prelude.{
  ℕ, ◌≡◌, refl, ◌∙◌, ap, sym, subst, String, Bool, true, false, ◌||◌, Option, none, some, List, [],
  ◌∷◌, arith, if-intro, Bool-cases, inl, inr,
}
use nubjuk_brain.Errors.{StiError, Result, ok, raise, sti, cancelled_error, runtime}
use nubjuk_brain.Pipeline.{Bytes, StiResult, SessionOpts, StiPipeline}
use nubjuk_brain.Session
use nubjuk_brain.Session.{
  SessionManager, idle, audio_in, done, ◌is◌, cleanup, transition, write_log, log_session_done,
}
use nubjuk_brain.Session.Settled.{IsSettled, cancel-IsSettled, Starts, try_start-IsSettled}
use nubjuk_brain.Session.Outcomes.{
  cancel-AfterCancel, cancel_held, AfterFinish, finish-AfterFinish, finish-IsSettled,
  try_start_held, try_start_free,
}
use nubjuk_brain.Server.{
  Server, Connection, accepted, Raw, ClientMessage, Event, is_waiting, is_full, refuse_frame,
  enqueue, answer_start, on_start, on_message, receive, fed, feed_next, work, answer_end,
  finish_or_cancel, after_finish, end_session, drained, step, disconnect, binary, unsupported,
  invalid, message, session_start, session_end, session_cancel, received, unsent, worked, looked,
  caught, enqueue_unsent, start_unsent, on_message_unsent, receive_unsent,
}
use nubjuk_brain.Server.Leaks.Ways.{
  HasSession, is_start, forgets, leaks, still, Leaves, cancel_frees, caught_frees,
}
use nubjuk_brain.Server.Leaks.Rounds.{receive-Leaves, receive_unsent-Leaves}
pub use Ways.*

module _ {P : Type 0} (ops : StiPipeline P) (maxsize : ℕ) where
  complete_frees :
      (now : ℕ) (reason : String) (m : SessionManager P)
      → m.state ≡ done
      → (Session.complete ops now reason m).locked ≡ false
  unfolding Session.complete cleanup transition write_log log_session_done
  complete_frees now reason m e = ground arith

  answer_end-Leaves :
      (now : ℕ) (delivered : Bool) (id : String) (r : Result StiResult) (p : P) (s : Server P)
      → s.connection.started ≡ true
      → IsSettled s.manager
      → AfterFinish ops r p s.manager
      → Leaves ops maxsize (forgets delivered none r) (answer_end ops now delivered id r s)
  unfolding answer_end finish_or_cancel after_finish
  answer_end-Leaves now true id (ok result) p s a h f =
      λ _. complete_frees now "intent_sent" s.manager f.0
  answer_end-Leaves now false id (ok result) p s a h f =
      λ _. cancel_frees ops maxsize "websocket_disconnect" s.manager h
  answer_end-Leaves now true id (raise (sti e)) p s a h f =
      λ _. cancel_frees ops maxsize "pipeline_error" s.manager h
  answer_end-Leaves now false id (raise (sti e)) p s a h f =
      caught_frees ops maxsize _ a (cancel-IsSettled ops "pipeline_error" s.manager h)
  answer_end-Leaves now true id (raise cancelled_error) p s a h f =
      λ _. cancel_frees ops maxsize "finish_cancelled" s.manager h
  answer_end-Leaves now false id (raise cancelled_error) p s a h f =
      λ _. cancel_frees ops maxsize "finish_cancelled" s.manager h
  answer_end-Leaves now true id (raise (runtime x)) p s a h f = λ _. f.1
  answer_end-Leaves now false id (raise (runtime x)) p s a h f = λ _. f.1

  ended :
      (now : ℕ) (delivered : Bool) (id : String) (n : ℕ) (s : Server P)
      → HasSession s
      → Leaves ops maxsize (forgets delivered none (ops.finish_session s.manager.pipeline).0) (
          answer_end ops now delivered id
            (Session.finish ops n s.manager).0
            (record s { manager = (Session.finish ops n s.manager).1 }))
  ended now delivered id n s h =
      let (same, after) = finish-AfterFinish ops n s.manager h.state h.locked in
      rw same (
        answer_end-Leaves now delivered id (ops.finish_session s.manager.pipeline).0
          (ops.finish_session s.manager.pipeline).1
          (record s { manager = (Session.finish ops n s.manager).1 }) h.started
          (finish-IsSettled ops n s.manager h.state h.settled) after)

  end_session-Leaves :
      (now : ℕ) (delivered : Bool) (id : String) (n : ℕ) (e : Option StiError) (q : List Bytes)
      (s : Server P)
      → HasSession s
      → Leaves ops maxsize
          (forgets delivered e (ops.finish_session s.manager.pipeline).0)
          (end_session ops now delivered id n e q s)
  unfolding end_session
  end_session-Leaves now true id n (some x) q s h = λ _. h.locked
  end_session-Leaves now false id n (some x) q s h = caught_frees ops maxsize s h.started h.settled
  end_session-Leaves now true id n none [] s h = ended now true id n s h
  end_session-Leaves now false id n none [] s h = ended now false id n s h
  end_session-Leaves now true id n none (frame ∷ q) s h = still h.returned
  end_session-Leaves now false id n none (frame ∷ q) s h = still h.returned

  drained-Leaves :
      (now : ℕ) (delivered : Bool) (w : Option (String × ℕ)) (s : Server P)
      → HasSession s
      → Leaves ops maxsize (leaks ops (looked now delivered) s) (drained ops now delivered w s)
  unfolding drained
  drained-Leaves now delivered none s h = still h.returned
  drained-Leaves now delivered (some (id, n)) s h =
      end_session-Leaves now delivered id n s.connection.audio_error s.connection.audio_queue s h

  fed-returned : (r : Result (Unit {0})) (c : Connection) → (fed ops r c).returned ≡ c.returned
  unfolding fed
  fed-returned (ok _) c = refl
  fed-returned (raise (sti e)) c = refl
  fed-returned (raise (runtime x)) c = refl
  fed-returned (raise cancelled_error) c = refl

  feed_next-Leaves :
      (q : List Bytes) (s : Server P) → HasSession s → Leaves ops maxsize false (feed_next ops q s)
  unfolding feed_next
  feed_next-Leaves [] s h = still h.returned
  feed_next-Leaves (frame ∷ q) s h =
      still (fed-returned (Session.feed_audio ops frame s.manager).0 _ ∙ h.returned)

  -- For a session that takes audio: where a step of its connection makes the handler return, the lock
  -- is free, but for three cases, in which it stays held: a second `session_start` whose busy message is
  -- sent, a look at the queue that sends the worker's error, and one at which the pipeline raises
  -- neither a `StiError` nor a cancellation.
  pub step-leaks :
      (e : Event) (s : Server P)
      → HasSession s
      → (step ops maxsize e s).connection.returned ≡ true
      → (step ops maxsize e s).manager.locked ≡ leaks ops e s
  unfolding step work
  step-leaks (received now raw) s h =
      if-intro (Leaves ops maxsize (is_start raw))
        (s.connection.returned || is_waiting s.connection.waiting) (λ _. still h.returned)
        (λ _. receive-Leaves ops maxsize now raw s h)
  step-leaks (unsent now raw) s h =
      if-intro (Leaves ops maxsize false) (s.connection.returned || is_waiting s.connection.waiting)
        (λ _. still h.returned) (λ _. receive_unsent-Leaves ops maxsize now raw s h)
  step-leaks worked s h =
      if-intro (Leaves ops maxsize false) s.connection.working
        (λ _. feed_next-Leaves s.connection.audio_queue s h) (λ _. still h.returned)
  step-leaks (looked now delivered) s h =
      if-intro (Leaves ops maxsize (leaks ops (looked now delivered) s)) s.connection.returned
        (λ _. still h.returned) (λ _. drained-Leaves now delivered s.connection.waiting s h)

  -- A `session_start` on a new connection, with the manager at rest and its lock free, and a pipeline
  -- that can start sessions: if the ack cannot be sent, nothing is sent, the handler returns, and the
  -- session that was started is given up: the manager is `idle` again with its lock free.
  pub unsent_start_released :
      (now : ℕ) (opts : SessionOpts) (m : SessionManager P)
      → Starts ops
      → IsSettled m
      → m.locked ≡ false
      → ((step ops maxsize
            (unsent now (message (session_start opts)))
            (record { connection = accepted; manager = m })).connection.sent
          ≡ [])
        × ((step ops maxsize
              (unsent now (message (session_start opts)))
              (record { connection = accepted; manager = m })).connection.returned
            ≡ true)
        × ((step ops maxsize
              (unsent now (message (session_start opts)))
              (record { connection = accepted; manager = m })).manager.state
            ≡ idle)
        × ((step ops maxsize
              (unsent now (message (session_start opts)))
              (record { connection = accepted; manager = m })).manager.locked
            ≡ false)
  unfolding step receive_unsent on_message_unsent start_unsent caught
  unsent_start_released now opts m starts h l =
      let started = try_start_free ops now opts m (ap (λ x. x.0) (starts opts m.pipeline).1) l in
      let settled = try_start-IsSettled ops starts now opts m h in
      let released =
        cancel_held ops "websocket_disconnect" (Session.try_start ops now opts m).1 settled
          started.locked in
      rw started.result (refl, refl, released.state, released.locked)
