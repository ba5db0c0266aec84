-- ===== src/Setup/Mocked.antt =====
-- brain/ws_server.py, brain/pipeline/mock.py and scripts/send_wav_to_brain.py: from the environment of a
-- server with the mock pipeline to the answer that its first client gets
use nubjuk_brain.Prelude.{
  ℕ, ◌/◌, ◌%◌, ◌≡◌, refl, ◌∙◌, sym, subst, false, some, List, [], ◌∷◌, ◌++◌, codes, if-intro,
}
use nubjuk_brain.Errors.{Result, ok}
use nubjuk_brain.Json.{end}
use nubjuk_brain.Pipeline.{Float, StiResult, SessionOpts}
use nubjuk_brain.Pipeline.Mock
use nubjuk_brain.Pipeline.Mock.{MockPipeline, new_mock, mock}
use nubjuk_brain.Client.{AudioFrame, to_wire}
use nubjuk_brain.Client.Delivery.{deliver}
use nubjuk_brain.Config
use nubjuk_brain.Config.{
  MockBrainConfig, MoonshineTinyKoConfig, RuntimeConfig, load_config_from_env,
}
use nubjuk_brain.Session
use nubjuk_brain.Session.{SessionManager, audio_in, new_manager}
use nubjuk_brain.Session.Quiet.{IsQuiet-feed_audio}
use nubjuk_brain.Session.Reception.{feed_audio-received}
use nubjuk_brain.Session.Outcomes.{try_start_free}
use nubjuk_brain.Server.{Event}
use nubjuk_brain.Server.Timing.{IsScheduled}
use nubjuk_brain.Server.Draining.{IsAnswering, IsAnswer, feed_audio_takes}
use nubjuk_brain.Server.Sending.{AreTaken, session_events}
use nubjuk_brain.Server.Exchange.{serve-session}
use nubjuk_brain.Server.Many.{new_app, take_turns}
use nubjuk_brain.Server.Many.First.{first_turns, IsAnswered, first_turns-IsAnswered}
use nubjuk_brain.Setup.{Machine, built, ◌>>=◌, Running, start_app, create_app}

-- what the mock pipeline answers
abbrev pub mock_result : MockBrainConfig Float → StiResult
mock_result config = record {
  intent = config.intent;
  slots = end;
  confidence = config.confidence;
  raw_text = some (codes "mock: " ++ config.intent);
  asr_ms = 0;
  slm_ms = 0;
}

-- a pipeline that answers so
record IsGoing (c : MockBrainConfig Float) (p : MockPipeline) : Type 0 where
  pub config : p.config ≡ c
  pub cancelled : p.cancelled ≡ false

mock-IsAnswering : IsAnswering mock
unfolding mock Mock.feed_audio Mock.finish_session Mock.finish_awake
mock-IsAnswering = record {
  takes = λ pcm p. refl;
  answers = λ p.
      if-intro (λ (x : Result StiResult × MockPipeline). IsAnswer x.0) p.cancelled (λ _. tt)
        (λ _.
          if-intro (λ (x : Result StiResult × MockPipeline). IsAnswer x.0) p.cancelled (λ _. tt)
            (λ _. tt));
}

mock_takes : (frames : List AudioFrame) (m : SessionManager MockPipeline) → AreTaken mock frames m
mock_takes [] m = tt
mock_takes (f ∷ fs) m = (
  feed_audio_takes mock 0 mock-IsAnswering (to_wire f) m,
  mock_takes fs (Session.feed_audio mock (to_wire f) m).1,
)

deliver-IsGoing :
    (config : MockBrainConfig Float) (fs : List AudioFrame) (m : SessionManager MockPipeline)
    → m.state ≡ audio_in
    → IsGoing config m.pipeline
    → IsGoing config (deliver mock fs m).pipeline
unfolding deliver to_wire mock Mock.feed_audio
deliver-IsGoing config [] m e h = h
deliver-IsGoing config (f ∷ fs) m e h =
    let (_, answer, next) =
      feed_audio-received mock (f.seq / 256) (f.seq % 256) f.flags 0 f.payload m e in
    deliver-IsGoing config fs (Session.feed_audio mock (to_wire f) m).1
      ((IsQuiet-feed_audio mock (to_wire f) m).state ∙ e)
      (subst (IsGoing config) (sym next) (record { config = h.config; cancelled = h.cancelled }))

going_answers :
    (config : MockBrainConfig Float) (p : MockPipeline)
    → IsGoing config p
    → (mock.finish_session p).0 ≡ ok (mock_result config)
unfolding mock Mock.finish_session Mock.finish_awake
going_answers config p h = rw (h.cancelled, h.config) refl

-- For an environment that selects the mock pipeline: the app starts with it, and whatever audio the
-- client of its first connection sends, in however many frames, with any rounds of the worker in which
-- the queue has room for every frame when it is received, and with an answer that can be sent, the
-- connection is sent an ack and the intent of the configuration at the configured confidence, and no more; its handler returns, and the
-- manager is at rest.
pub mock-IsAnswered :
    (m : Machine) (now maxsize : ℕ) (es : List Event) (config : MockBrainConfig Float)
    (opts : SessionOpts) (frames : List AudioFrame)
    → load_config_from_env m.float_type m.unicode m.environment
      ≡ Config.loaded (RuntimeConfig.mock config)
    → IsScheduled maxsize 0 (session_events opts frames) es
    → (create_app m now ≡ built (Running.mock (new_app now (new_mock config))))
      × IsAnswered opts.correlation_id
          (mock_result config)
          (take_turns mock maxsize (first_turns es) (new_app now (new_mock config)))
unfolding create_app start_app ◌>>=◌
mock-IsAnswered m now maxsize es config opts frames e k =
    let m₀ = new_manager now (new_mock config) in
    let starts : (mock.start_session opts m₀.pipeline).0 ≡ ok tt =
      unfold mock Mock.start_session in refl in
    let free : m₀.locked ≡ false = unfold new_manager in refl in
    let played : (time : ℕ)
        → (mock.finish_session
            (deliver mock frames (Session.try_start mock time opts m₀).1).pipeline).0
          ≡ ok (mock_result config) =
      λ time.
        let started = try_start_free mock time opts m₀ starts free in
        let going : IsGoing config (Session.try_start mock time opts m₀).1.pipeline =
          subst (IsGoing config) (sym started.pipeline) (
            unfold mock Mock.start_session new_manager new_mock in
            record { config = refl; cancelled = refl }) in
        going_answers config _ (deliver-IsGoing config frames _ started.state going) in
    let (sent, returned, state, locked) =
      serve-session mock maxsize es opts frames m₀ {result = mock_result config} free
        (record { starts = starts; taken = λ time. mock_takes frames _; answer = played }) k in
    (
      rw e refl,
      first_turns-IsAnswered mock maxsize es now (new_mock config) opts.correlation_id
          (mock_result config) sent returned state locked,
    )
