-- ===== src/Server/Endings.antt =====
-- brain/ws_server.py: what becomes of the session when the handler returns
use nubjuk_brain.Prelude.{
  ℕ, ◌≡◌, refl, ◌∙◌, subst, String, Bool, true, false, none, some, [], ◌∷◌, ◌++◌, arith,
}
use nubjuk_brain.Errors.{ok}
use nubjuk_brain.Pipeline.{StiResult, StiPipeline}
use nubjuk_brain.Session
use nubjuk_brain.Session.{
  SessionManager, audio_in, done, idle, ◌is◌, cleanup, transition, write_log, log_session_done,
}
use nubjuk_brain.Session.Settled.{IsSettled}
use nubjuk_brain.Session.Outcomes.{IsReleased, cancel_held, AfterFinish, finish-AfterFinish}
use nubjuk_brain.Server.{
  Server, Connection, Reply, Raw, ClientMessage, refuse_frame, enqueue, on_message, receive,
  answer_end, finish_or_cancel, after_finish, end_session, drained, step, disconnect, binary,
  message, session_start, session_cancel, received, looked, is_full,
}

-- what is received ends the session: a disconnect, a cancel, or a frame that the queue cannot take,
-- while the worker has not failed
abbrev pub Ends : ℕ → Raw → Connection → Type 0
Ends maxsize disconnect c = Unit
Ends maxsize (message (session_cancel id)) c = Unit
Ends maxsize (binary frame) c = (c.audio_error ≡ none) × (is_full maxsize c.audio_queue ≡ true)
Ends maxsize _ c = ⊥

-- the handler receives: it has not returned, and waits for nothing
pub record IsServing {P : Type 0} (s : Server P) : Type 0 where
  pub started : s.connection.started ≡ true
  pub waiting : s.connection.waiting ≡ none
  pub returned : s.connection.returned ≡ false
  pub locked : s.manager.locked ≡ true
  pub settled : IsSettled s.manager

pub record IsLeft {P : Type 0} (ops : StiPipeline P) (before after : Server P) : Type 0 where
  pub released : IsReleased ops before.manager after.manager
  pub returned : after.connection.returned ≡ true

module _ {P : Type 0} (ops : StiPipeline P) (maxsize : ℕ) where
  step-received :
      (now : ℕ) (raw : Raw) (s : Server P)
      → IsServing s
      → step ops maxsize (received now raw) s ≡ receive ops maxsize now raw s
  unfolding step
  step-received now raw s h = rw (h.returned, h.waiting) refl

  receive-Ends :
      (now : ℕ) (raw : Raw) (s : Server P)
      → IsServing s
      → Ends maxsize raw s.connection
      → IsLeft ops s (receive ops maxsize now raw s)
  unfolding receive on_message enqueue refuse_frame
  receive-Ends now disconnect s h e = rw h.started (record {
    released = cancel_held ops "websocket_disconnect" s.manager h.settled h.locked;
    returned = refl;
  })
  receive-Ends now (message (session_cancel id)) s h e = rw h.started (record {
    released = cancel_held ops "session_cancel" s.manager h.settled h.locked;
    returned = refl;
  })
  receive-Ends now (binary frame) s h (e, f) =
      rw (h.started, e, f)
        (record {
          released = cancel_held ops "pipeline_error" s.manager h.settled h.locked;
          returned = refl;
        })
  receive-Ends now Raw.unsupported s h e = absurd e
  receive-Ends now (Raw.invalid id text) s h e = absurd e
  receive-Ends now (message (session_start opts)) s h e = absurd e
  receive-Ends now (message (ClientMessage.session_end id n)) s h e = absurd e

  -- If a session runs on the connection, and a disconnect, a cancel or a frame for a full queue is
  -- received, the handler returns, and the manager is released: `idle`, the lock free, the options
  -- gone and the pipeline's session cancelled.
  pub step-IsLeft :
      (now : ℕ) (raw : Raw) (s : Server P)
      → IsServing s
      → Ends maxsize raw s.connection
      → IsLeft ops s (step ops maxsize (received now raw) s)
  step-IsLeft now raw s h e = rw (step-received now raw s h) (receive-Ends now raw s h e)

  complete_done :
      (now : ℕ) (reason : String) (m : SessionManager P)
      → m.state ≡ done
      → IsReleased ops m (Session.complete ops now reason m)
  unfolding Session.complete cleanup transition write_log log_session_done
  complete_done now reason m e = ground arith

  pub looked_answers :
      (now : ℕ) (delivered : Bool) (id : String) (n : ℕ) (s : Server P)
      → s.connection.returned ≡ false
      → s.connection.waiting ≡ some (id, n)
      → s.connection.audio_error ≡ none
      → s.connection.audio_queue ≡ []
      → step ops maxsize (looked now delivered) s
        ≡ answer_end ops now delivered id
            (Session.finish ops n s.manager).0
            (record s { manager = (Session.finish ops n s.manager).1 })
  unfolding step drained end_session
  looked_answers now delivered id n s r w e q = rw (r, w, e, q) refl

  -- If a `session_end` waits, the worker has fed every frame without a failure, the manager is in
  -- `audio_in` with the lock held, the pipeline returns a result and the intent can be sent, then
  -- the result is sent, the handler returns, and the manager is `idle` with the lock free.
  pub answered_releases :
      (now : ℕ) (id : String) (n : ℕ) {result : StiResult} (s : Server P)
      → s.connection.returned ≡ false
      → s.connection.waiting ≡ some (id, n)
      → s.connection.audio_error ≡ none
      → s.connection.audio_queue ≡ []
      → s.manager.state ≡ audio_in
      → s.manager.locked ≡ true
      → (ops.finish_session s.manager.pipeline).0 ≡ ok result
      → ((step ops maxsize (looked now true) s).connection.returned ≡ true)
        × ((step ops maxsize (looked now true) s).connection.sent
            ≡ s.connection.sent ++ Reply.intent id result ∷ [])
        × ((step ops maxsize (looked now true) s).manager.state ≡ idle)
        × ((step ops maxsize (looked now true) s).manager.locked ≡ false)
  unfolding answer_end finish_or_cancel after_finish
  answered_releases now id n {result} s r w e q a l f =
      let (answer, after) = finish-AfterFinish ops n s.manager a l in
      let there : AfterFinish ops (ok result) (ops.finish_session s.manager.pipeline).1
          (Session.finish ops n s.manager).1 =
        subst
          (λ x.
            AfterFinish ops x (ops.finish_session s.manager.pipeline).1
              (Session.finish ops n s.manager).1)
          f after in
      let left = complete_done now "intent_sent" (Session.finish ops n s.manager).1 there.0 in
      rw (looked_answers now true id n s r w e q, answer ∙ f) (refl, refl, left.state, left.locked)
