-- ===== src/Server/Draining.antt =====
-- brain/ws_server.py: a session whose end is requested, while the worker feeds what is queued
use nubjuk_brain.Prelude.{
  ℕ, ◌≡◌, refl, ap, ◌∙◌, sym, subst, not, if-intro, String, Bool, true, false, none, some, List, [],
  ◌∷◌, length, arith,
}
use nubjuk_brain.Errors.{Result, ok, raise, sti, cancelled_error, runtime}
use nubjuk_brain.Pipeline.{Bytes, StiResult, StiPipeline}
use nubjuk_brain.Session
use nubjuk_brain.Session.{
  SessionManager, SessionState, audio_in, done, ◌is◌, accept_frame, feed_pipeline, cleanup,
  transition, write_log, log_session_done,
}
use nubjuk_brain.Session.Quiet.{IsQuiet-feed_audio}
use nubjuk_brain.Session.Outcomes.{AfterFinish, finish-AfterFinish}
use nubjuk_brain.Server.Endings.{looked_answers}
use nubjuk_brain.Server.Timing.{IsDrained, AreFed, feed_frames}
use nubjuk_brain.Server.{
  Server, Event, received, unsent, worked, looked, drained, end_session, caught, fed, feed_next,
  work, answer_end, finish_or_cancel, after_finish, step, serve,
}

-- A pipeline that takes all audio, and answers a `finish_session` with a result or a `StiError`.
abbrev pub IsAnswer : Result StiResult → Type 0
IsAnswer (ok _) = Unit
IsAnswer (raise (sti _)) = Unit
IsAnswer (raise _) = ⊥

pub record IsAnswering {P : Type 0} (ops : StiPipeline P) : Type 0 where
  pub takes : (pcm : Bytes) (p : P) → (ops.feed_audio pcm p).0 ≡ ok tt
  pub answers : (p : P) → IsAnswer (ops.finish_session p).0

-- The handler waits for its queue, the worker runs and has not failed, and the session takes audio.
pub record IsDraining {P : Type 0} (id : String) (n : ℕ) (s : Server P) : Type 0 where
  pub returned : s.connection.returned ≡ false
  pub waiting : s.connection.waiting ≡ some (id, n)
  pub error : s.connection.audio_error ≡ none
  pub working : s.connection.working ≡ true
  pub state : s.manager.state ≡ audio_in
  pub locked : s.manager.locked ≡ true

module _ {P : Type 0} (ops : StiPipeline P) (maxsize : ℕ) where
  worked_feeds :
      (frame : Bytes) (q : List Bytes) (s : Server P)
      → s.connection.working ≡ true
      → s.connection.audio_queue ≡ frame ∷ q
      → (Session.feed_audio ops frame s.manager).0 ≡ ok tt
      → step ops maxsize worked s ≡ record {
        connection = record s.connection { audio_queue = q };
        manager = (Session.feed_audio ops frame s.manager).1;
      }
  unfolding step work feed_next fed
  worked_feeds frame q s w e t = rw (w, e, t) refl

  worked_rests :
      (s : Server P)
      → s.connection.working ≡ true
      → s.connection.audio_queue ≡ []
      → step ops maxsize worked s ≡ s
  unfolding step work feed_next
  worked_rests s w e = rw (w, e) refl

  looked_waits :
      (now : ℕ) (delivered : Bool) (frame : Bytes) (q : List Bytes) (id : String) (n : ℕ)
      (s : Server P)
      → IsDraining id n s
      → s.connection.audio_queue ≡ frame ∷ q
      → step ops maxsize (looked now delivered) s ≡ s
  unfolding step drained end_session
  looked_waits now delivered frame q id n s h e = rw (h.returned, h.waiting, h.error, e) refl

  -- the server once its queue is fed
  abbrev pub fed_up : List Bytes → Server P → Server P
  fed_up queue s = record {
    connection = record s.connection { audio_queue = [] };
    manager = feed_frames ops queue s.manager;
  }

  after_frame-IsDraining :
      (frame : Bytes) (q : List Bytes) (id : String) (n : ℕ) (s : Server P)
      → IsDraining id n s
      → IsDraining id n (record {
        connection = record s.connection { audio_queue = q };
        manager = (Session.feed_audio ops frame s.manager).1;
      })
  after_frame-IsDraining frame q id n s h =
      let quiet = IsQuiet-feed_audio ops frame s.manager in
      record {
        returned = h.returned;
        waiting = h.waiting;
        error = h.error;
        working = h.working;
        state = quiet.state ∙ h.state;
        locked = quiet.locked ∙ h.locked;
      }

  fed_up-IsDraining :
      (queue : List Bytes) (id : String) (n : ℕ) (s : Server P)
      → IsDraining id n s
      → IsDraining id n (fed_up queue s)
  fed_up-IsDraining [] id n s h = record {
    returned = h.returned;
    waiting = h.waiting;
    error = h.error;
    working = h.working;
    state = h.state;
    locked = h.locked;
  }
  fed_up-IsDraining (frame ∷ q) id n s h =
      fed_up-IsDraining q id n _ (after_frame-IsDraining frame q id n s h)

  -- The worker feeds every queued frame, in its order, before a look goes on.
  pub serve_drained :
      (es : List Event) (queue : List Bytes) (delivered : Bool) (id : String) (n : ℕ) (s : Server P)
      → IsDraining id n s
      → s.connection.audio_queue ≡ queue
      → AreFed ops queue s.manager
      → IsDrained delivered (length queue) es
      → (now : ℕ) × (serve ops maxsize es s
          ≡ step ops maxsize (looked now delivered) (fed_up queue s))
  unfolding serve
  serve_drained [] queue delivered id n s h e t k = absurd k
  serve_drained (received now raw ∷ es) queue delivered id n s h e t k = absurd k
  serve_drained (unsent now raw ∷ es) queue delivered id n s h e t k = absurd k
  serve_drained (worked ∷ es) [] delivered id n s h e t k =
      let (now, same) = serve_drained es [] delivered id n s h e t k in
      (now, ap (serve ops maxsize es) (worked_rests s h.working e) ∙ same)
  serve_drained (worked ∷ es) (frame ∷ q) delivered id n s h e t k =
      let (now, same) =
        serve_drained es q delivered id n _ (after_frame-IsDraining frame q id n s h) refl t.1 k in
      (now, ap (serve ops maxsize es) (worked_feeds frame q s h.working e t.0) ∙ same)
  serve_drained (looked now taken ∷ es) [] delivered id n s h e t k = (
    now,
    ap (λ es. serve ops maxsize es (step ops maxsize (looked now taken) s)) k.1
        ∙ ap (λ d. step ops maxsize (looked now d) s) k.0
        ∙ ap
            (λ q.
              step ops maxsize (looked now delivered)
                (record s { connection = record s.connection { audio_queue = q } }))
            e,
  )
  serve_drained (looked now taken ∷ es) (frame ∷ q) delivered id n s h e t k =
      let (later, same) = serve_drained es (frame ∷ q) delivered id n s h e t k in
      (later, ap (serve ops maxsize es) (looked_waits now taken frame q id n s h e) ∙ same)

module _ {P : Type 0} (ops : StiPipeline P) (maxsize : ℕ) (answering : IsAnswering ops) where
  answer_end_done :
      (now : ℕ) (delivered : Bool) (id : String) (r : Result StiResult) (p : P) (s : Server P)
      → IsAnswer r
      → AfterFinish ops r p s.manager
      → ((answer_end ops now delivered id r s).connection.returned ≡ true)
        × ((answer_end ops now delivered id r s).manager.locked ≡ false)
  unfolding answer_end finish_or_cancel after_finish Session.complete Session.cancel cleanup
      transition write_log log_session_done caught
  answer_end_done now true id (ok result) p s a h = ground arith
  answer_end_done now false id (ok result) p s a h = ground arith
  answer_end_done now true id (raise (sti e)) p s a h = ground arith
  answer_end_done now false id (raise (sti e)) p s a h = ground arith
  answer_end_done now true id (raise cancelled_error) p s a h = absurd a
  answer_end_done now false id (raise cancelled_error) p s a h = absurd a
  answer_end_done now true id (raise (runtime x)) p s a h = absurd a
  answer_end_done now false id (raise (runtime x)) p s a h = absurd a

  looked_done :
      (now : ℕ) (delivered : Bool) (id : String) (n : ℕ) (s : Server P)
      → IsDraining id n s
      → s.connection.audio_queue ≡ []
      → ((step ops maxsize (looked now delivered) s).connection.returned ≡ true)
        × ((step ops maxsize (looked now delivered) s).manager.locked ≡ false)
  looked_done now delivered id n s h q =
      let (r, m) = Session.finish ops n s.manager in
      let (same, after) = finish-AfterFinish ops n s.manager h.state h.locked in
      rw (looked_answers ops maxsize now delivered id n s h.returned h.waiting h.error q) (
        answer_end_done now delivered id r (ops.finish_session s.manager.pipeline).1
          (record s { manager = m })
          (subst IsAnswer (sym same) (answering.answers s.manager.pipeline))
          (subst (λ x. AfterFinish ops x (ops.finish_session s.manager.pipeline).1 m) (sym same)
            after))

  accept_frame_takes : (frame : Bytes) (m : SessionManager P) → (accept_frame ops frame m).0 ≡ ok tt
  unfolding accept_frame feed_pipeline
  accept_frame_takes [] m = refl
  accept_frame_takes (a ∷ []) m = refl
  accept_frame_takes (a ∷ b ∷ []) m = refl
  accept_frame_takes (a ∷ b ∷ c ∷ []) m = refl
  accept_frame_takes (a ∷ b ∷ c ∷ d ∷ payload) m = answering.takes payload _

  pub feed_audio_takes :
      (frame : Bytes) (m : SessionManager P) → (Session.feed_audio ops frame m).0 ≡ ok tt
  unfolding Session.feed_audio
  feed_audio_takes frame m =
      if-intro (λ (x : Result (Unit {0}) × SessionManager P). x.0 ≡ ok tt)
        (not (m.state is audio_in)) (λ _. refl) (λ _. accept_frame_takes frame m)

  all_fed : (queue : List Bytes) (m : SessionManager P) → AreFed ops queue m
  all_fed [] m = tt
  all_fed (frame ∷ q) m = (feed_audio_takes frame m, all_fed q (Session.feed_audio ops frame m).1)

  -- Over a pipeline that takes all audio and answers with a result or a `StiError`: once the end of a
  -- session in `audio_in` is requested, whatever rounds of the worker and looks at the queue follow
  -- until a look finds it empty, every queued frame is fed, in its order, before that look calls
  -- `finish`; and then the handler returns, the lock free, whether or not the answer can be sent.
  pub serve-answered :
      (es : List Event) (queue : List Bytes) (delivered : Bool) (id : String) (n : ℕ) (s : Server P)
      → IsDraining id n s
      → s.connection.audio_queue ≡ queue
      → IsDrained delivered (length queue) es
      → ((now : ℕ) × (serve ops maxsize es s
            ≡ step ops maxsize (looked now delivered) (fed_up ops maxsize queue s)))
        × ((serve ops maxsize es s).connection.returned ≡ true)
        × ((serve ops maxsize es s).manager.locked ≡ false)
  serve-answered es queue delivered id n s h e k =
      let (now, same) =
        serve_drained ops maxsize es queue delivered id n s h e (all_fed queue s.manager) k in
      let (returned, free) =
        looked_done now delivered id n (fed_up ops maxsize queue s)
          (fed_up-IsDraining ops maxsize queue id n s h) refl in
      (
        (now, same),
        ap (λ (x : Server P). x.connection.returned) same ∙ returned,
        ap (λ (x : Server P). x.manager.locked) same ∙ free,
      )
