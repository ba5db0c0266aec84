-- ===== src/Server/Sending.antt =====
-- brain/ws_server.py and scripts/send_wav_to_brain.py: what the client sends in a session, and its
-- frames on the way to the session manager
use nubjuk_brain.Prelude.{
  ℕ, suc, ◌≡◌, refl, ◌∙◌, ap, sym, subst, inl, inr, true, false, some, List, [], ◌∷◌, ◌++◌, length,
  map, append-nil, append_assoc, length-append, arith,
}
use nubjuk_brain.Errors.{ok}
use nubjuk_brain.Pipeline.{Bytes, SessionOpts, StiPipeline}
use nubjuk_brain.Client.{AudioFrame, to_wire}
use nubjuk_brain.Client.Delivery.{deliver}
use nubjuk_brain.Session
use nubjuk_brain.Session.{SessionManager, idle, audio_in, start_result, transition, write_log}
use nubjuk_brain.Session.Quiet.{IsQuiet-feed_audio}
use nubjuk_brain.Server.{
  Connection, Raw, unsent, Reply, Event, accepted, is_full, received, worked, looked, binary,
  message, session_start, session_end, step, serve, receive, enqueue, work, feed_next, fed,
  on_message,
}
use nubjuk_brain.Server.Timing.{IsScheduled, HasRoom, AreFed, feed_frames}
use nubjuk_brain.Server.Draining.{serve_drained}

-- the binary messages that `send_wav` sends, one after another
unfoldable pub frame_events : List AudioFrame → List Raw
frame_events [] = []
frame_events (f ∷ fs) = binary (to_wire f) ∷ frame_events fs

-- what the server receives from `send_wav`
unfoldable pub session_events : SessionOpts → List AudioFrame → List Raw
session_events opts frames =
    message (session_start opts)
    ∷ (frame_events frames ++ message (session_end opts.correlation_id (length frames)) ∷ [])

module _ {P : Type 0} (ops : StiPipeline P) where
  -- The manager takes the frames, one after another, without an exception.
  abbrev pub AreTaken : List AudioFrame → SessionManager P → Type 0
  AreTaken [] m = Unit
  AreTaken (f ∷ fs) m =
      ((Session.feed_audio ops (to_wire f) m).0 ≡ ok tt)
      × AreTaken fs (Session.feed_audio ops (to_wire f) m).1

-- the connection while the client sends its audio
abbrev pub taking : SessionOpts → Connection
taking opts = record accepted {
  started = true;
  correlation_id = opts.correlation_id;
  sent = Reply.ack opts.correlation_id ∷ [];
}

-- the connection while its end is awaited
abbrev pub ending : SessionOpts → ℕ → Connection
ending opts n = record (taking opts) { waiting = some (opts.correlation_id, n) }

-- the connection while the worker has frames left to feed
abbrev pub filled : SessionOpts → List Bytes → Connection
filled opts queue = record (taking opts) { audio_queue = queue }

module _ {P : Type 0} (ops : StiPipeline P) (maxsize : ℕ) where
  step_rests :
      (opts : SessionOpts) (m : SessionManager P)
      → step ops maxsize worked (record { connection = filled opts []; manager = m })
        ≡ record { connection = filled opts []; manager = m }
  unfolding step work feed_next
  step_rests opts m = refl

  step_worked :
      (opts : SessionOpts) (frame : Bytes) (q : List Bytes) (m : SessionManager P)
      → (Session.feed_audio ops frame m).0 ≡ ok tt
      → step ops maxsize worked (record { connection = filled opts (frame ∷ q); manager = m })
        ≡ record { connection = filled opts q; manager = (Session.feed_audio ops frame m).1 }
  unfolding step work feed_next fed
  step_worked opts frame q m t = rw t refl

  room_left : (queue : List Bytes) → HasRoom maxsize (length queue) → is_full maxsize queue ≡ false
  unfolding is_full
  room_left queue (inl e) = ground arith
  room_left queue (inr h) = ground arith

  step_frame :
      (now : ℕ) (opts : SessionOpts) (frame : Bytes) (queue : List Bytes) (m : SessionManager P)
      → HasRoom maxsize (length queue)
      → step ops maxsize
          (received now (binary frame))
          (record { connection = filled opts queue; manager = m })
        ≡ record { connection = filled opts (queue ++ frame ∷ []); manager = m }
  unfolding step receive enqueue
  step_frame now opts frame queue m room = rw (room_left queue room) refl

  step_end :
      (now : ℕ) (opts : SessionOpts) (n : ℕ) (queue : List Bytes) (m : SessionManager P)
      → step ops maxsize
          (received now (message (session_end opts.correlation_id n)))
          (record { connection = filled opts queue; manager = m })
        ≡ record { connection = record (ending opts n) { audio_queue = queue }; manager = m }
  unfolding step receive on_message
  step_end now opts n queue m = refl

  pub are_fed :
      (fs : List AudioFrame) (m : SessionManager P)
      → AreTaken ops fs m
      → AreFed ops (map to_wire fs) m
  are_fed [] m t = tt
  are_fed (f ∷ fs) m t = (t.0, are_fed fs (Session.feed_audio ops (to_wire f) m).1 t.1)

  pub feed_frames-deliver :
      (fs : List AudioFrame) (m : SessionManager P)
      → feed_frames ops (map to_wire fs) m ≡ deliver ops fs m
  unfolding deliver
  feed_frames-deliver [] m = refl
  feed_frames-deliver (f ∷ fs) m = feed_frames-deliver fs (Session.feed_audio ops (to_wire f) m).1

  -- Frames that are queued, and frames that are yet to be received.
  pub serve_frames :
      (es : List Event) (opts : SessionOpts) (n : ℕ) (queue : List Bytes) (fs : List AudioFrame)
      (m : SessionManager P)
      → m.state ≡ audio_in
      → m.locked ≡ true
      → AreFed ops (queue ++ map to_wire fs) m
      → IsScheduled maxsize
          (length queue)
          (frame_events fs ++ message (session_end opts.correlation_id n) ∷ [])
          es
      → (now : ℕ) × (serve ops maxsize es (record { connection = filled opts queue; manager = m })
          ≡ step ops maxsize (looked now true) (record {
            connection = ending opts n;
            manager = feed_frames ops (queue ++ map to_wire fs) m;
          }))
  unfolding serve frame_events
  serve_frames [] opts n queue [] m a l t k = absurd k
  serve_frames [] opts n queue (f ∷ fs) m a l t k = absurd k
  serve_frames (worked ∷ es) opts n [] [] m a l t k =
      let (now, same) = serve_frames es opts n [] [] m a l t k in
      (now, ap (serve ops maxsize es) (step_rests opts m) ∙ same)
  serve_frames (worked ∷ es) opts n [] (f ∷ fs) m a l t k =
      let (now, same) = serve_frames es opts n [] (f ∷ fs) m a l t k in
      (now, ap (serve ops maxsize es) (step_rests opts m) ∙ same)
  serve_frames (worked ∷ es) opts n (frame ∷ q) [] m a l t k =
      let quiet = IsQuiet-feed_audio ops frame m in
      let (now, same) =
        serve_frames es opts n q [] (Session.feed_audio ops frame m).1 (quiet.state ∙ a)
          (quiet.locked ∙ l) t.1 k in
      (now, ap (serve ops maxsize es) (step_worked opts frame q m t.0) ∙ same)
  serve_frames (worked ∷ es) opts n (frame ∷ q) (f ∷ fs) m a l t k =
      let quiet = IsQuiet-feed_audio ops frame m in
      let (now, same) =
        serve_frames es opts n q (f ∷ fs) (Session.feed_audio ops frame m).1 (quiet.state ∙ a)
          (quiet.locked ∙ l) t.1 k in
      (now, ap (serve ops maxsize es) (step_worked opts frame q m t.0) ∙ same)
  serve_frames (received now raw ∷ es) opts n queue [] m a l t k =
      let fed : AreFed ops queue m = subst (λ q. AreFed ops q m) (append-nil queue) t in
      let (later, same) =
        serve_drained ops maxsize es queue true opts.correlation_id n
          (record { connection = record (ending opts n) { audio_queue = queue }; manager = m })
          (record {
            returned = refl;
            waiting = refl;
            error = refl;
            working = refl;
            state = a;
            locked = l;
          })
          refl fed k.2 in
      (
        later,
        ap
              (λ r. serve ops maxsize es (
                step ops maxsize (received now r)
                  (record { connection = filled opts queue; manager = m })))
              k.0
            ∙ ap (serve ops maxsize es) (step_end now opts n queue m)
            ∙ same
            ∙ ap
                (λ q.
                  step ops maxsize (looked later true)
                    (record { connection = ending opts n; manager = feed_frames ops q m }))
                (sym (append-nil queue)),
      )
  serve_frames (received now raw ∷ es) opts n queue (f ∷ fs) m a l t k =
      let longer : (queue ++ to_wire f ∷ []) ++ map to_wire fs
          ≡ queue ++ to_wire f ∷ map to_wire fs =
        append_assoc queue (to_wire f ∷ []) (map to_wire fs) in
      let size : length (queue ++ to_wire f ∷ []) ≡ suc (length queue) =
        omega (arith, length-append queue (to_wire f ∷ [])) in
      let (later, same) =
        serve_frames es opts n (queue ++ to_wire f ∷ []) fs m a l
          (subst (λ q. AreFed ops q m) (sym longer) t)
          (subst
            (λ i.
              IsScheduled maxsize i
                (frame_events fs ++ message (session_end opts.correlation_id n) ∷ []) es)
            (sym size) k.2) in
      (
        later,
        ap
              (λ r. serve ops maxsize es (
                step ops maxsize (received now r)
                  (record { connection = filled opts queue; manager = m })))
              k.0
            ∙ ap (serve ops maxsize es) (step_frame now opts (to_wire f) queue m k.1)
            ∙ same
            ∙ ap
                (λ q.
                  step ops maxsize (looked later true)
                    (record { connection = ending opts n; manager = feed_frames ops q m }))
                longer,
      )
  serve_frames (looked now taken ∷ es) opts n queue [] m a l t k = absurd k
  serve_frames (looked now taken ∷ es) opts n queue (f ∷ fs) m a l t k = absurd k
  serve_frames (unsent now raw ∷ es) opts n queue [] m a l t k = absurd k
  serve_frames (unsent now raw ∷ es) opts n queue (f ∷ fs) m a l t k = absurd k
