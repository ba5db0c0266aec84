-- ===== src/Pipeline/Moonshine.antt =====
-- brain/pipeline/moonshine_tiny_ko.py: `MoonshineTinyKoRulesPipeline`, without its log lines. The
-- transcriber and the resolver are parameters, as they are arguments of the constructor.
pub mod Audio
pub mod Recognition
pub mod Transcriber
pub mod Log
use nubjuk_brain.Prelude.{
  ℕ, ◌+◌, min, String, Bool, true, false, Option, none, some, List, [], ◌++◌, Text, length, ltb,
  leb, ◌==◌, text_eq, if◌then◌else◌,
}
use nubjuk_brain.Errors.{Result, ok, raise, Exception, sti, cancelled_error, runtime, sti_error}
use nubjuk_brain.Pipeline.{Bytes, Float, StiResult, SessionOpts, StiPipeline}
use nubjuk_brain.Config.{MoonshineTinyKoConfig}
use nubjuk_brain.Pipeline.Pcm.{nat_of, pcm_s16le_stats, audio_bytes_for_ms}
use nubjuk_brain.Intent.Normalize.{Unicode, lstrip, rstrip}
use nubjuk_brain.Intent.Phonetic.{Floats}
use nubjuk_brain.Intent.Catalog.{unknown, IntentMatch, IntentCatalog, match_text, match_intent_id}

pub record SlmIntentDecision : Type 0 where
  pub intent : Text
  pub raw_output : Text
  pub slm_ms : ℕ

-- The protocol of a resolver, over its state `R`.
pub record SlmIntentResolver (R : Type 0) : Type 0 where
  pub resolve : Text → IntentCatalog → R → Result SlmIntentDecision × R
  pub cancel : R → R

-- What the constructor is given, and a transcriber's `transcribe`.
pub record Parts : Type 0 where
  pub config : MoonshineTinyKoConfig Float
  pub catalog : IntentCatalog
  pub unicode : Unicode
  pub floats : Floats
  pub transcribe : Bytes → Result (Text × ℕ)

-- `config.max_audio_ms`, which the configuration checks to be positive
abbrev pub max_audio_ms : Parts → ℕ
max_audio_ms parts = nat_of parts.config.max_audio_ms

pub record Moonshine (R : Type 0) : Type 0 where
  pub opts : Option SessionOpts
  pub pcm : Bytes
  pub max_audio_bytes : ℕ
  pub cancelled : Bool
  pub intent_resolver : Option R

unfoldable pub should_accept_slm_match : IntentMatch → Option IntentMatch → Bool
should_accept_slm_match catalog_match none = false
should_accept_slm_match catalog_match (some slm_match) =
    if leb slm_match.confidence catalog_match.confidence
    then false
    else if text_eq catalog_match.intent unknown
    then false
    else text_eq slm_match.intent catalog_match.intent

unfoldable pub slm_skip_reason : IntentMatch → Float → Option String
slm_skip_reason catalog_match min_catalog_confidence =
    if text_eq catalog_match.intent unknown
    then some "catalog_unknown"
    else if leb min_catalog_confidence catalog_match.confidence
    then some "catalog_confident"
    else none

-- `except RuntimeError as exc: raise StiError("asr_failed", str(exc))`
unfoldable pub asr_failed : Exception → Exception
asr_failed (runtime x) = sti (sti_error "asr_failed" (some x))
asr_failed (sti e) = sti e
asr_failed cancelled_error = cancelled_error

-- the match of the two that the resolver's decision leaves
unfoldable pub decide : IntentMatch → Option IntentMatch → IntentMatch
decide catalog_match none = catalog_match
decide catalog_match (some slm_match) =
    if should_accept_slm_match catalog_match (some slm_match) then slm_match else catalog_match

unfoldable pub sti_result : Text → ℕ → IntentMatch → ℕ → StiResult
sti_result raw_text asr_ms m slm_ms = record {
  intent = m.intent;
  slots = m.slots;
  confidence = m.confidence;
  raw_text = some raw_text;
  asr_ms = asr_ms;
  slm_ms = slm_ms;
}

unfoldable pub cancel_resolver : {R : Type 0} → SlmIntentResolver R → Option R → Option R
cancel_resolver resolver none = none
cancel_resolver resolver (some r) = some (resolver.cancel r)

module _ (parts : Parts) where
  -- `raw_text.strip()`
  unfoldable pub strip : Text → Text
  strip text = rstrip parts.unicode (lstrip parts.unicode text)

  -- `match_intent(raw_text, …)`
  unfoldable pub match_intent : Text → IntentMatch
  match_intent raw_text =
      match_text parts.unicode parts.floats parts.catalog raw_text parts.config.unknown_confidence

  -- `MoonshineTinyKoRulesPipeline(config, …)`
  unfoldable pub new_moonshine : {R : Type 0} → Option R → Moonshine R
  new_moonshine resolver = record {
    opts = none;
    pcm = [];
    max_audio_bytes = audio_bytes_for_ms (max_audio_ms parts);
    cancelled = false;
    intent_resolver = resolver;
  }

  unfoldable pub start_session :
      {R : Type 0} → SessionOpts → Moonshine R → Result (Unit {0}) × Moonshine R
  start_session opts p = (
    ok tt,
    record p {
      opts = some opts;
      pcm = [];
      max_audio_bytes = audio_bytes_for_ms (min opts.max_utterance_ms (max_audio_ms parts));
      cancelled = false;
    },
  )

  unfoldable pub feed_audio : {R : Type 0} → Bytes → Moonshine R → Result (Unit {0}) × Moonshine R
  feed_audio pcm p =
      if p.cancelled
      then (ok tt, p)
      else if ltb p.max_audio_bytes (length p.pcm + length pcm)
      then (raise (sti (sti_error "timeout" (some "audio exceeds configured max duration"))), p)
      else (ok tt, record p { pcm = p.pcm ++ pcm })

  module _ {R : Type 0} (resolver : SlmIntentResolver R) where
    -- behind the await of the resolver: its `StiError` is logged, another exception passes
    unfoldable pub after_resolve :
        Text
        → ℕ
        → IntentMatch
        → Result SlmIntentDecision
        → Moonshine R
        → Result StiResult × Moonshine R
    after_resolve raw_text asr_ms catalog_match (ok decision) p =
        let slm_match = match_intent_id parts.catalog decision.intent parts.config.slm_confidence in
        (ok (sti_result raw_text asr_ms (decide catalog_match slm_match) decision.slm_ms), p)
    after_resolve raw_text asr_ms catalog_match (raise (sti e)) p =
        (ok (sti_result raw_text asr_ms catalog_match 0), p)
    after_resolve raw_text asr_ms catalog_match (raise e) p = (raise e, p)

    -- the resolver is asked if there is one and nothing speaks against it
    unfoldable pub ask_resolver :
        Text
        → ℕ
        → IntentMatch
        → Option String
        → Option R
        → Moonshine R
        → Result StiResult × Moonshine R
    ask_resolver raw_text asr_ms catalog_match none (some r) p =
        let (decision, r₁) = resolver.resolve raw_text parts.catalog r in
        after_resolve raw_text asr_ms catalog_match decision
          (record p { intent_resolver = some r₁ })
    ask_resolver raw_text asr_ms catalog_match _ _ p =
        (ok (sti_result raw_text asr_ms catalog_match 0), p)

    unfoldable pub understand : Text → ℕ → Moonshine R → Result StiResult × Moonshine R
    understand raw_text asr_ms p =
        if length raw_text == 0
        then (raise (sti (sti_error "asr_failed" (some "empty transcript"))), p)
        else let catalog_match = match_intent raw_text in
          let reason = slm_skip_reason catalog_match parts.config.slm_min_catalog_confidence in
          ask_resolver raw_text asr_ms catalog_match reason p.intent_resolver p

    -- behind the await of the transcriber; a cancel may have come meanwhile
    unfoldable pub after_transcribe :
        Result (Text × ℕ) → Moonshine R → Result StiResult × Moonshine R
    after_transcribe (raise e) p = (raise (asr_failed e), p)
    after_transcribe (ok (text, asr_ms)) p =
        if p.cancelled
        then (raise (sti (sti_error "internal" (some "moonshine pipeline cancelled"))), p)
        else understand (strip text) asr_ms p

    -- the statistics are computed outside of the `try`
    unfoldable pub transcribe_audio : Moonshine R → Result StiResult × Moonshine R
    transcribe_audio p = elim (pcm_s16le_stats p.pcm) [
      | raise e ↦ (raise e, p)
      | ok _ ↦ after_transcribe (parts.transcribe p.pcm) p
    ]

    unfoldable pub finish_session : Moonshine R → Result StiResult × Moonshine R
    finish_session p =
        if p.cancelled
        then (raise (sti (sti_error "internal" (some "moonshine pipeline cancelled"))), p)
        else if length p.pcm == 0
        then (raise (sti (sti_error "asr_failed" (some "empty audio"))), p)
        else transcribe_audio p

    unfoldable pub cancel_session : Moonshine R → Moonshine R
    cancel_session p = record p {
      cancelled = true;
      intent_resolver = cancel_resolver resolver p.intent_resolver;
      pcm = [];
    }

    unfoldable pub moonshine : StiPipeline (Moonshine R)
    moonshine = record {
      start_session = start_session;
      feed_audio = feed_audio;
      finish_session = finish_session;
      cancel_session = cancel_session;
    }
