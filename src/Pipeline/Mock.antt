-- ===== src/Pipeline/Mock.antt =====
-- brain/pipeline/mock.py: `MockPipeline`
use nubjuk_brain.Prelude.{
  ℕ, ◌+◌, Bool, true, false, Option, none, some, ◌++◌, codes, length, if◌then◌else◌,
}
use nubjuk_brain.Errors.{Result, ok, raise, sti, sti_error}
use nubjuk_brain.Json.{end}
use nubjuk_brain.Config.{MockBrainConfig}
use nubjuk_brain.Pipeline.{Bytes, Float, StiResult, SessionOpts, StiPipeline}

pub record MockPipeline : Type 0 where
  pub config : MockBrainConfig Float
  pub opts : Option SessionOpts
  pub audio_bytes : ℕ
  pub cancelled : Bool

-- `MockPipeline(config)`
unfoldable pub new_mock : MockBrainConfig Float → MockPipeline
new_mock config = record { config = config; opts = none; audio_bytes = 0; cancelled = false }

unfoldable pub start_session : SessionOpts → MockPipeline → Result (Unit {0}) × MockPipeline
start_session opts p = (ok tt, record p { opts = some opts; audio_bytes = 0; cancelled = false })

unfoldable pub feed_audio : Bytes → MockPipeline → Result (Unit {0}) × MockPipeline
feed_audio pcm p = (ok tt, record p { audio_bytes = p.audio_bytes + length pcm })

-- `finish_session` behind the sleep, which a cancel may fall into; without a delay it follows at once
unfoldable pub finish_awake : MockPipeline → Result StiResult × MockPipeline
finish_awake p =
    if p.cancelled
    then (raise (sti (sti_error "internal" (some "mock pipeline cancelled"))), p)
    else (
      ok (record {
        intent = p.config.intent;
        slots = end;
        confidence = p.config.confidence;
        raw_text = some (codes "mock: " ++ p.config.intent);
        asr_ms = 0;
        slm_ms = 0;
      }),
      p,
    )

unfoldable pub finish_session : MockPipeline → Result StiResult × MockPipeline
finish_session p =
    if p.cancelled
    then (raise (sti (sti_error "internal" (some "mock pipeline cancelled"))), p)
    else finish_awake p

unfoldable pub cancel_session : MockPipeline → MockPipeline
cancel_session p = record p { cancelled = true }

unfoldable pub mock : StiPipeline MockPipeline
mock = record {
  start_session = start_session;
  feed_audio = feed_audio;
  finish_session = finish_session;
  cancel_session = cancel_session;
}
