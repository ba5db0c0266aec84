-- ===== src/Pipeline/Moonshine/Log.antt =====
-- brain/pipeline/moonshine_tiny_ko.py: what `finish_session` logs, computed along its branches
pub mod Traced
use nubjuk_brain.Prelude.{
  ℕ, String, Bool, true, false, Option, none, some, List, [], ◌∷◌, Text, length, ◌==◌,
  if◌then◌else◌,
}
use nubjuk_brain.Errors.{Result, ok, raise, sti, cancelled_error, runtime}
use nubjuk_brain.Pipeline.{Float}
use nubjuk_brain.Pipeline.Pcm.{PcmStats, pcm_s16le_stats}
use nubjuk_brain.Pipeline.Moonshine.{
  SlmIntentDecision, SlmIntentResolver, Parts, Moonshine, should_accept_slm_match, decide,
  slm_skip_reason, strip, match_intent,
}
use nubjuk_brain.Pipeline.Qwen.Output.{compact_slm_output}
use nubjuk_brain.Intent.Catalog.{IntentMatch, match_intent_id}
use nubjuk_brain.Session.{logged_id}

-- The lines, by their event, with the fields in their order. The statistics are the integers of them.
pub data LogLine : Type 0 where
  asr_answer : String → Text → ℕ → ℕ → PcmStats → LogLine
  slm_answer : String → Text → ℕ → Text → LogLine
  slm_error : String → String → String → LogLine
  slm_skip : String → Text → Float → Float → String → LogLine
  intent_match : String → Text → Text → Float → String → LogLine

-- `match_source`
unfoldable pub match_source : IntentMatch → Option IntentMatch → String
match_source catalog_match slm_match =
    if should_accept_slm_match catalog_match slm_match then "slm" else "catalog"

module _ (parts : Parts) where
  -- the last line
  abbrev pub log_match : String → IntentMatch → String → LogLine
  log_match id m source = intent_match id parts.catalog.catalog_version m.intent m.confidence source

  unfoldable pub log_resolve : String → IntentMatch → Result SlmIntentDecision → List LogLine
  log_resolve id catalog_match (ok decision) =
      let slm_match = match_intent_id parts.catalog decision.intent parts.config.slm_confidence in
      slm_answer id decision.intent decision.slm_ms
        (compact_slm_output parts.unicode decision.raw_output 400)
      ∷ log_match id (decide catalog_match slm_match) (match_source catalog_match slm_match)
      ∷ []
  log_resolve id catalog_match (raise (sti e)) =
      slm_error id e.code e.message ∷ log_match id catalog_match "catalog" ∷ []
  log_resolve id catalog_match (raise cancelled_error) = []
  log_resolve id catalog_match (raise (runtime x)) = []

  module _ {R : Type 0} (resolver : SlmIntentResolver R) where
    unfoldable pub log_ask : String → Text → IntentMatch → Option String → Option R → List LogLine
    log_ask id raw_text catalog_match none (some r) =
        log_resolve id catalog_match (resolver.resolve raw_text parts.catalog r).0
    log_ask id raw_text catalog_match (some reason) (some r) =
        slm_skip id catalog_match.intent catalog_match.confidence
          parts.config.slm_min_catalog_confidence reason
        ∷ log_match id catalog_match "catalog"
        ∷ []
    log_ask id raw_text catalog_match reason none = log_match id catalog_match "catalog" ∷ []

    unfoldable pub log_understand : String → Text → Option R → List LogLine
    log_understand id raw_text r =
        if length raw_text == 0
        then []
        else log_ask id raw_text (match_intent parts raw_text)
            (slm_skip_reason (match_intent parts raw_text) parts.config.slm_min_catalog_confidence)
            r

    unfoldable pub log_transcribed : PcmStats → Result (Text × ℕ) → Moonshine R → List LogLine
    log_transcribed stats (raise e) p = []
    log_transcribed stats (ok (text, asr_ms)) p =
        if p.cancelled
        then []
        else asr_answer (logged_id p.opts) (strip parts text) asr_ms (length p.pcm) stats
          ∷ log_understand (logged_id p.opts) (strip parts text) p.intent_resolver

    unfoldable pub log_audio : Result PcmStats → Moonshine R → List LogLine
    log_audio (raise e) p = []
    log_audio (ok stats) p = log_transcribed stats (parts.transcribe p.pcm) p

    -- the lines of a call of `finish_session`
    unfoldable pub log_finish : Moonshine R → List LogLine
    log_finish p =
        if p.cancelled
        then []
        else if length p.pcm == 0
        then []
        else log_audio (pcm_s16le_stats p.pcm) p
