-- ===== src/Server/Spoken.antt =====
-- brain/ws_server.py with brain/pipeline/moonshine_tiny_ko.py and scripts/send_wav_to_brain.py: from the
-- client's PCM to the intent that the server sends
pub mod Transcribed
use nubjuk_brain.Prelude.{
  ℕ, ◌+◌, ◌*◌, ◌/◌, ◌%◌, ◌≤◌, ◌<◌, ◌≡◌, refl, ◌∙◌, ap, sym, subst, min, true, false, List, [], ◌∷◌,
  ◌++◌, Text, length, length-append, append-nil, append_assoc, replicate, arith,
}
use nubjuk_brain.Errors.{Result, ok, raise}
use nubjuk_brain.Pipeline.{Bytes, StiResult, SessionOpts}
use nubjuk_brain.Pipeline.Pcm.{audio_bytes_for_ms, audio_bytes_for_ms_lem}
use nubjuk_brain.Pipeline.Moonshine
use nubjuk_brain.Pipeline.Moonshine.{
  max_audio_ms, Parts, Moonshine, SlmIntentResolver, strip, match_intent, moonshine,
}
use nubjuk_brain.Pipeline.Moonshine.Recognition.{IsExpected, IsOf, Returns, finish_session-Returns}
use nubjuk_brain.Intent.Catalog.{IntentMatch}
use nubjuk_brain.Client.{AudioFrame, to_wire, iter_audio_frames}
use nubjuk_brain.Client.Frames.{IsRun, payloads, iter_audio_frames-IsRun}
use nubjuk_brain.Client.Delivery.{deliver}
use nubjuk_brain.Session
use nubjuk_brain.Session.{SessionManager, idle, audio_in}
use nubjuk_brain.Session.Quiet.{IsQuiet-feed_audio}
use nubjuk_brain.Session.Reception.{feed_audio-received}
use nubjuk_brain.Session.Outcomes.{try_start_free}
use nubjuk_brain.Server.{Reply, Event, accepted, serve}
use nubjuk_brain.Server.Timing.{IsScheduled}
use nubjuk_brain.Server.Sending.{AreTaken, session_events}
use nubjuk_brain.Server.Exchange.{serve-session}

-- whole frames of samples are whole samples
payloads-even :
    (n seq : ℕ) (fs : List AudioFrame) → IsRun (n * 2) seq fs → length (payloads fs) % 2 ≡ 0
unfolding payloads
payloads-even n seq [] r = refl
payloads-even n seq (f ∷ []) r = rw (append-nil, r.1) (omega arith)
payloads-even n seq (f ∷ g ∷ fs) r =
    let rest = payloads-even n (seq + 1) (g ∷ fs) r.3 in
    let size = r.1 in omega (arith, length-append f.payload (payloads (g ∷ fs)))

abbrev taken_frames : Result (List AudioFrame) → List AudioFrame
taken_frames (ok frames) = frames
taken_frames (raise e) = []

-- the audio in the client's frames: whole samples, and not shorter than its PCM
pub cut_audio :
    (pcm : Bytes) (n : ℕ) (frames : List AudioFrame)
    → 0 < n
    → iter_audio_frames pcm n ≡ ok frames
    → (length (payloads frames) % 2 ≡ 0) × (length pcm ≤ length (payloads frames))
cut_audio pcm n frames pos cut =
    let (fs, e, run, (z, small, padded)) = iter_audio_frames-IsRun pcm n pos in
    let same : fs ≡ frames = ap taken_frames (sym e ∙ cut) in
    subst (λ x. (length (payloads x) % 2 ≡ 0) × (length pcm ≤ length (payloads x))) same
      (
        payloads-even n 0 fs run,
        rw padded (omega (arith, length-append pcm (replicate {A = ℕ} z 0))),
      )

module _ (parts : Parts) {R : Type 0} (resolver : SlmIntentResolver R) where
  abbrev buffer : Bytes → Moonshine R → Moonshine R
  buffer pcm p = record p { pcm = pcm }

  -- the buffer takes a payload for which it has room
  moonshine_takes :
      (pcm : Bytes) (p : Moonshine R)
      → p.cancelled ≡ false
      → length p.pcm + length pcm ≤ p.max_audio_bytes
      → (moonshine parts resolver).feed_audio pcm p ≡ (ok tt, buffer (p.pcm ++ pcm) p)
  unfolding moonshine Moonshine.feed_audio
  moonshine_takes pcm p c h = ground arith

  deliver_heard :
      (fs : List AudioFrame) (m : SessionManager (Moonshine R))
      → m.state ≡ audio_in
      → m.pipeline.cancelled ≡ false
      → length m.pipeline.pcm + length (payloads fs) ≤ m.pipeline.max_audio_bytes
      → AreTaken (moonshine parts resolver) fs m
        × ((deliver (moonshine parts resolver) fs m).pipeline
            ≡ buffer (m.pipeline.pcm ++ payloads fs) m.pipeline)
  unfolding deliver payloads to_wire
  deliver_heard [] m e c h = (tt, sym (ap (λ x. buffer x m.pipeline) (append-nil m.pipeline.pcm)))
  deliver_heard (f ∷ fs) m e c h =
      let ops = moonshine parts resolver in
      let size = length-append f.payload (payloads fs) in
      let (_, answer, next) =
        feed_audio-received ops (f.seq / 256) (f.seq % 256) f.flags 0 f.payload m e in
      let takes = moonshine_takes f.payload m.pipeline c (omega arith) in
      let heard = next ∙ ap (λ r. r.1) takes in
      let m₁ = (Session.feed_audio ops (to_wire f) m).1 in
      let room : length m₁.pipeline.pcm + length (payloads fs) ≤ m₁.pipeline.max_audio_bytes =
        rw heard (omega (arith, length-append m.pipeline.pcm f.payload)) in
      let (taken, rest) =
        deliver_heard fs m₁ ((IsQuiet-feed_audio ops (to_wire f) m).state ∙ e)
          (ap (λ p. p.cancelled) heard ∙ c) room in
      (
        (answer ∙ ap (λ r. r.0) takes, taken),
        rest
            ∙ ap (λ p. buffer (p.pcm ++ payloads fs) p) heard
            ∙ ap (λ x. buffer x m.pipeline) (append_assoc m.pipeline.pcm f.payload (payloads fs)),
      )

  -- the pipeline behind a `start_session`
  record IsFresh (opts : SessionOpts) (p : Moonshine R) : Type 0 where
    pub cancelled : p.cancelled ≡ false
    pub pcm : p.pcm ≡ []
    pub max_audio_bytes :
        p.max_audio_bytes ≡ audio_bytes_for_ms (min opts.max_utterance_ms (max_audio_ms parts))

  start_session-IsFresh :
      (opts : SessionOpts) (p : Moonshine R)
      → (((moonshine parts resolver).start_session opts p).0 ≡ ok tt)
        × IsFresh opts ((moonshine parts resolver).start_session opts p).1
  unfolding moonshine Moonshine.start_session
  start_session-IsFresh opts p =
      (refl, record { cancelled = refl; pcm = refl; max_audio_bytes = refl })

  returned_result :
      (m : IntentMatch) (text : Text) (ms : ℕ) (r : Result StiResult)
      → Returns parts resolver m text ms r
      → (result : StiResult) × (r ≡ ok result) × IsOf m text ms result
  returned_result m text ms (ok result) h = (result, refl, h)
  returned_result m text ms (raise e) h = absurd h

  -- what `finish_session` returns for a buffer that holds the audio
  answers_heard :
      (audio : Bytes) (p : Moonshine R) (text : Text) (ms : ℕ)
      → p.pcm ≡ audio
      → p.cancelled ≡ false
      → 0 < length audio
      → length audio % 2 ≡ 0
      → parts.transcribe audio ≡ ok (text, ms)
      → 0 < length (strip parts text)
      → ((r : R) → IsExpected (resolver.resolve (strip parts text) parts.catalog r).0)
      → (result : StiResult) × (((moonshine parts resolver).finish_session p).0 ≡ ok result)
        × IsOf (match_intent parts (strip parts text)) (strip parts text) ms result
  unfolding moonshine
  answers_heard audio p text ms e c n even t b x =
      returned_result (match_intent parts (strip parts text)) (strip parts text) ms _ (
        finish_session-Returns parts resolver p text ms c (rw e n) (rw e even)
          (ap parts.transcribe e ∙ t) b x)

  module _ (now : ℕ) (opts : SessionOpts) (frames : List AudioFrame)
      (m : SessionManager (Moonshine R)) where
    -- the manager when the end of the session is looked at
    abbrev delivered : SessionManager (Moonshine R)
    delivered =
        deliver (moonshine parts resolver) frames
          (Session.try_start (moonshine parts resolver) now opts m).1

    -- the pipeline then, with the audio in its buffer
    abbrev holding : Moonshine R
    holding = buffer (payloads frames) ((moonshine parts resolver).start_session opts m.pipeline).1

    delivered_heard :
        m.locked ≡ false
        → length (payloads frames) ≤ 32 * min opts.max_utterance_ms (max_audio_ms parts)
        → AreTaken
            (moonshine parts resolver)
            frames
            (Session.try_start (moonshine parts resolver) now opts m).1
          × (delivered.pipeline ≡ holding)
    delivered_heard l room =
        let ops = moonshine parts resolver in
        let (ok_start, fresh) = start_session-IsFresh opts m.pipeline in
        let started = try_start_free ops now opts m ok_start l in
        let m₁ = (Session.try_start ops now opts m).1 in
        let cancelled : m₁.pipeline.cancelled ≡ false =
          ap (λ p. p.cancelled) started.pipeline ∙ fresh.cancelled in
        let empty : m₁.pipeline.pcm ≡ [] = ap (λ p. p.pcm) started.pipeline ∙ fresh.pcm in
        let limit =
          ap (λ p. p.max_audio_bytes) started.pipeline
          ∙ fresh.max_audio_bytes
          ∙ audio_bytes_for_ms_lem (min opts.max_utterance_ms (max_audio_ms parts)) in
        let fits : length m₁.pipeline.pcm + length (payloads frames) ≤ m₁.pipeline.max_audio_bytes =
          rw (empty, limit) (omega arith) in
        let (taken, heard) = deliver_heard frames m₁ started.state cancelled fits in
        (
          taken,
          heard
              ∙ ap (λ x. buffer (x ++ payloads frames) m₁.pipeline) empty
              ∙ ap (buffer (payloads frames)) started.pipeline,
        )

  module _ (maxsize : ℕ) (opts : SessionOpts) (es : List Event)
      (m : SessionManager (Moonshine R)) where
    -- the answer to the whole session
    abbrev pub IsServed : StiResult → Type 0
    IsServed result =
        let s =
          serve (moonshine parts resolver) maxsize es
            (record { connection = accepted; manager = m }) in
        (s.connection.sent
          ≡ Reply.ack opts.correlation_id ∷ Reply.intent opts.correlation_id result ∷ [])
        × (s.connection.returned ≡ true)
        × (s.manager.state ≡ idle)
        × (s.manager.locked ≡ false)

  -- A session of the client on a server with the moonshine pipeline, on a new connection with the
  -- manager's lock free, with any rounds of the worker in which the queue has room for every frame when
  -- it is received, and with an answer that can be sent: if the PCM is not empty and, cut into frames,
  -- not longer than both limits allow, the transcriber returns a text for it that is not blank, and the resolver raises nothing but a
  -- `StiError`, then the connection is sent an ack and an intent, and no more, the handler returns, and
  -- the manager is `idle` with its lock free. The intent is the one that the catalog alone matches to
  -- the stripped text, at a confidence that is not below the catalog's.
  pub serve_spoken :
      (maxsize : ℕ) (es : List Event) (opts : SessionOpts) (pcm : Bytes) (frame_samples : ℕ)
      (frames : List AudioFrame) (m : SessionManager (Moonshine R)) (text : Text) (ms : ℕ)
      → 0 < frame_samples
      → iter_audio_frames pcm frame_samples ≡ ok frames
      → 0 < length pcm
      → length (payloads frames) ≤ 32 * min opts.max_utterance_ms (max_audio_ms parts)
      → m.locked ≡ false
      → parts.transcribe (payloads frames) ≡ ok (text, ms)
      → 0 < length (strip parts text)
      → ((r : R) → IsExpected (resolver.resolve (strip parts text) parts.catalog r).0)
      → IsScheduled maxsize 0 (session_events opts frames) es
      → (result : StiResult) × IsOf
          (match_intent parts (strip parts text))
          (strip parts text)
          ms
          result
        × IsServed maxsize opts es m result
  serve_spoken maxsize es opts pcm n frames m text ms pos cut some_pcm room l t b x k =
      let (sizes, audio) = cut_audio pcm n frames pos cut in
      let (starts, fresh) = start_session-IsFresh opts m.pipeline in
      let (result, answer, is_of) =
        answers_heard (payloads frames) (holding 0 opts frames m) text ms refl fresh.cancelled
          (omega arith) sizes t b x in
      (
        result,
        is_of,
        serve-session (moonshine parts resolver) maxsize es opts frames m l
            (record {
              starts = starts;
              taken = λ now. (delivered_heard now opts frames m l room).0;
              answer = λ now.
                  ap (λ p. ((moonshine parts resolver).finish_session p).0)
                    (delivered_heard now opts frames m l room).1
                  ∙ answer;
            })
            k,
      )
