-- ===== src/Server/Exchange.antt =====
-- brain/ws_server.py and scripts/send_wav_to_brain.py: a whole session of the client on a new
-- connection
use nubjuk_brain.Prelude.{ℕ, ◌≡◌, refl, ◌∙◌, ap, true, false, List, [], ◌∷◌, length}
use nubjuk_brain.Errors.{ok}
use nubjuk_brain.Pipeline.{StiResult, SessionOpts, StiPipeline}
use nubjuk_brain.Client.{AudioFrame, to_wire}
use nubjuk_brain.Client.Delivery.{deliver}
use nubjuk_brain.Session
use nubjuk_brain.Session.{SessionManager, idle, audio_in, start_result, transition, write_log}
use nubjuk_brain.Session.Quiet.{IsQuiet-feed_audio}
use nubjuk_brain.Session.Outcomes.{try_start_free}
use nubjuk_brain.Server.{
  unsent, Reply, Event, accepted, received, worked, looked, message, session_start, step, serve,
  receive, work, feed_next, on_start, on_message, answer_start,
}
use nubjuk_brain.Server.Endings.{answered_releases}
use nubjuk_brain.Server.Sending.{
  AreTaken, session_events, taking, ending, are_fed, feed_frames-deliver, serve_frames,
}
use nubjuk_brain.Server.Timing.{IsScheduled}

module _ {P : Type 0} (ops : StiPipeline P) (maxsize : ℕ) where
  step_start :
      (now : ℕ) (opts : SessionOpts) (m : SessionManager P)
      → m.locked ≡ false
      → (ops.start_session opts m.pipeline).0 ≡ ok tt
      → step ops maxsize
          (received now (message (session_start opts)))
          (record { connection = accepted; manager = m })
        ≡ record { connection = taking opts; manager = (Session.try_start ops now opts m).1 }
  unfolding step receive on_message on_start answer_start
  step_start now opts m l e =
      let s = try_start_free ops now opts m e l in
      ap
        (λ r. record {
          connection =
              answer_start ops opts.correlation_id r
                (record accepted { correlation_id = opts.correlation_id });
          manager = (Session.try_start ops now opts m).1;
        })
        s.result

  deliver-state :
      (frames : List AudioFrame) (m : SessionManager P)
      → ((deliver ops frames m).state ≡ m.state) × ((deliver ops frames m).locked ≡ m.locked)
  unfolding deliver
  deliver-state [] m = (refl, refl)
  deliver-state (f ∷ fs) m =
      let quiet = IsQuiet-feed_audio ops (to_wire f) m in
      let (s, l) = deliver-state fs (Session.feed_audio ops (to_wire f) m).1 in
      (s ∙ quiet.state, l ∙ quiet.locked)

  accepted_rests :
      (m : SessionManager P)
      → step ops maxsize worked (record { connection = accepted; manager = m })
        ≡ record { connection = accepted; manager = m }
  unfolding step work feed_next
  accepted_rests m = refl

  -- the manager when the queue is empty at last
  abbrev heard_out : ℕ → SessionOpts → List AudioFrame → SessionManager P → SessionManager P
  heard_out now opts frames m = deliver ops frames (Session.try_start ops now opts m).1

  -- A pipeline that starts the session, takes its frames and returns the result, whatever the time of
  -- the start, which the statistics keep.
  pub record IsPlayed (opts : SessionOpts) (frames : List AudioFrame) (m : SessionManager P)
      (result : StiResult) : Type 0 where
    pub starts : (ops.start_session opts m.pipeline).0 ≡ ok tt
    pub taken : (now : ℕ) → AreTaken ops frames (Session.try_start ops now opts m).1
    pub answer :
        (now : ℕ)
        → (ops.finish_session (deliver ops frames (Session.try_start ops now opts m).1).pipeline).0
          ≡ ok result

  serve_session :
      (es : List Event) (opts : SessionOpts) (frames : List AudioFrame) (m : SessionManager P)
      {result : StiResult}
      → m.locked ≡ false
      → IsPlayed opts frames m result
      → IsScheduled maxsize 0 (session_events opts frames) es
      → (begun ended : ℕ) × (serve ops maxsize es (record { connection = accepted; manager = m })
          ≡ step ops maxsize (looked ended true) (record {
            connection = ending opts (length frames);
            manager = heard_out begun opts frames m;
          }))
  unfolding serve session_events
  serve_session [] opts frames m l p k = absurd k
  serve_session (worked ∷ es) opts frames m l p k =
      let (begun, ended, same) = serve_session es opts frames m l p k in
      (begun, ended, ap (serve ops maxsize es) (accepted_rests m) ∙ same)
  serve_session (received now raw ∷ es) opts frames m l p k =
      let m₁ = (Session.try_start ops now opts m).1 in
      let started = try_start_free ops now opts m p.starts l in
      let (ended, same) =
        serve_frames ops maxsize es opts (length frames) [] frames m₁ started.state started.locked
          (are_fed ops maxsize frames m₁ (p.taken now)) k.2 in
      (
        now,
        ended,
        ap
              (λ r.
                serve ops maxsize es (
                  step ops maxsize (received now r)
                    (record { connection = accepted; manager = m })))
              k.0
            ∙ ap (serve ops maxsize es) (step_start now opts m l p.starts)
            ∙ same
            ∙ ap
                (λ x.
                  step ops maxsize (looked ended true)
                    (record { connection = ending opts (length frames); manager = x }))
                (feed_frames-deliver ops maxsize frames m₁),
      )
  serve_session (looked now taken ∷ es) opts frames m l p k = absurd k
  serve_session (unsent now raw ∷ es) opts frames m l p k = absurd k

  -- The client's session on a new connection, with the manager's lock free, received at any times and
  -- fed by any rounds of the worker in which the queue has room for every frame when it is received, and
  -- with an answer that can be sent: if the pipeline starts the session, takes the frames, and returns a
  -- result for what was delivered, then the connection is sent an ack and the intent with that result,
  -- and no more, the handler returns, and the manager is `idle` with its lock free.
  pub serve-session :
      (es : List Event) (opts : SessionOpts) (frames : List AudioFrame) (m : SessionManager P)
      {result : StiResult}
      → m.locked ≡ false
      → IsPlayed opts frames m result
      → IsScheduled maxsize 0 (session_events opts frames) es
      → ((serve ops maxsize es (record { connection = accepted; manager = m })).connection.sent
          ≡ Reply.ack opts.correlation_id ∷ Reply.intent opts.correlation_id result ∷ [])
        × ((serve ops maxsize es
              (record { connection = accepted; manager = m })).connection.returned
            ≡ true)
        × ((serve ops maxsize es (record { connection = accepted; manager = m })).manager.state
            ≡ idle)
        × ((serve ops maxsize es (record { connection = accepted; manager = m })).manager.locked
            ≡ false)
  serve-session es opts frames m {result} l p k =
      let (begun, ended, same) = serve_session es opts frames m l p k in
      let started = try_start_free ops begun opts m p.starts l in
      let m₁ = (Session.try_start ops begun opts m).1 in
      let (state, locked) = deliver-state frames m₁ in
      let (returned, sent, done, free) =
        answered_releases ops maxsize ended opts.correlation_id (length frames) {result = result}
          (record { connection = ending opts (length frames); manager = deliver ops frames m₁ })
          refl refl refl refl (state ∙ started.state) (locked ∙ started.locked) (p.answer begun) in
      rw same (sent, returned, done, free)
