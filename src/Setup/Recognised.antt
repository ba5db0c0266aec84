-- ===== src/Setup/Recognised.antt =====
-- brain/ws_server.py with the moonshine pipeline, its catalog and scripts/send_wav_to_brain.py: from the
-- environment and the files of the server to the answer that its first client gets
use nubjuk_brain.Prelude.{
  ℕ, ◌*◌, ◌≤◌, ◌<◌, ◌≡◌, refl, ◌∙◌, ap, subst, min, Option, some, List, Text, length, Elem,
}
use nubjuk_brain.Errors.{ok}
use nubjuk_brain.Pipeline.{Bytes, Float, StiResult, SessionOpts}
use nubjuk_brain.Pipeline.Pcm.{nat_of, samples_of}
use nubjuk_brain.Pipeline.Moonshine.{match_intent, new_moonshine, moonshine}
use nubjuk_brain.Pipeline.Moonshine.Recognition.{IsOf}
use nubjuk_brain.Pipeline.Moonshine.Transcriber.{Transcript, Transcriber, extract_transcript_text}
use nubjuk_brain.Pipeline.Qwen.Process.{QwenSlmIntentResolver, qwen}
use nubjuk_brain.Pipeline.Qwen.Process.Stopped.{IsUndisturbed, qwen-IsExpected}
use nubjuk_brain.Intent.Normalize.{compact}
use nubjuk_brain.Intent.Recipe.{
  IntentRecipe, IntentCatalogData, valid, validate_unique_intents_and_aliases,
}
use nubjuk_brain.Intent.Catalog.{IntentMatch, IntentCatalog, build_catalog, matched}
use nubjuk_brain.Intent.Catalog.Exact.{match-alias}
use nubjuk_brain.Intent.Loading.{Loading, load_intent_catalog}
use nubjuk_brain.Client.{AudioFrame, iter_audio_frames}
use nubjuk_brain.Client.Frames.{payloads}
use nubjuk_brain.Config
use nubjuk_brain.Config.{
  MockBrainConfig, MoonshineTinyKoConfig, RuntimeConfig, load_config_from_env,
}
use nubjuk_brain.Session.{new_manager}
use nubjuk_brain.Server.{Event}
use nubjuk_brain.Server.Timing.{IsScheduled}
use nubjuk_brain.Server.Sending.{session_events}
use nubjuk_brain.Server.Spoken.Transcribed.{serve_transcribed}
use nubjuk_brain.Server.Many.{new_app, take_turns}
use nubjuk_brain.Server.Many.First.{first_turns, IsAnswered, first_turns-IsAnswered}
use nubjuk_brain.Setup.{
  Machine, built, ◌>>=◌, load_transcriber, new_resolver_of, Running, parts_of, build_moonshine,
  start_app, create_app,
}

-- A result for a text with the compact form of an alias of the recipe.
pub record IsRecognised (r : IntentRecipe) (text : Text) (result : StiResult) : Type 0 where
  pub intent : result.intent ≡ r.id
  pub confidence : r.exact_confidence ≤ result.confidence
  pub raw_text : result.raw_text ≡ some text

is_recognised :
    (r : IntentRecipe) (match : IntentMatch) (text : Text) (ms : ℕ) (result : StiResult)
    → match ≡ matched r r.exact_confidence
    → IsOf match text ms result
    → IsRecognised r text result
is_recognised r match text ms result e h = record {
  intent = h.intent ∙ ap (λ x. x.intent) e;
  confidence = subst (λ (x : IntentMatch). x.confidence ≤ result.confidence) e h.confidence;
  raw_text = h.raw_text;
}

module _ (m : Machine) (now : ℕ) where
  pub create_moonshine :
      (c : MoonshineTinyKoConfig Float) (t : Transcriber) (catalog : IntentCatalog)
      (q : Option QwenSlmIntentResolver)
      → load_config_from_env m.float_type m.unicode m.environment
        ≡ Config.loaded (RuntimeConfig.moonshine_tiny_ko c)
      → load_transcriber m.moonshine_voice c ≡ ok t
      → load_intent_catalog m.unicode m.source c.intent_catalog_path ≡ Loading.loaded catalog
      → new_resolver_of m.disk c.slm_enabled c.slm_llama_cli c.slm_model_path ≡ built q
      → create_app m now
        ≡ built (
            Running.moonshine
              (parts_of m c t catalog)
              (new_app now (new_moonshine (parts_of m c t catalog) q)))
  unfolding create_app start_app build_moonshine ◌>>=◌
  create_moonshine c t catalog q e f g h = rw (e, f, g, h) refl

  -- For an environment that selects the moonshine pipeline, with a model that the library opens, a
  -- catalog file whose data the validator accepts, and, if it is enabled, the program and the model of
  -- the resolver: the app starts. If the client of its first connection sends PCM that is not empty and,
  -- cut into frames, not longer than both limits allow, the library hears in it a text with the compact
  -- form of an alias of a recipe, no run of llama-cli is cancelled, whatever rounds the
  -- worker takes, the queue has room for every frame when it is received, and the answer can be sent, then the connection is sent an
  -- ack and an intent, and no more, its handler returns and the manager is at rest. The intent is the id
  -- of the recipe, whatever llama-cli prints, at a confidence that is not below its `exact_confidence`.
  pub alias-IsAnswered :
      (maxsize : ℕ) (es : List Event) (c : MoonshineTinyKoConfig Float) (t : Transcriber)
      (d : IntentCatalogData) (q : Option QwenSlmIntentResolver) (opts : SessionOpts) (pcm : Bytes)
      (frame_samples : ℕ) (frames : List AudioFrame) (transcript : Transcript) (ms : ℕ)
      (r : IntentRecipe) (a : Text)
      → load_config_from_env m.float_type m.unicode m.environment
        ≡ Config.loaded (RuntimeConfig.moonshine_tiny_ko c)
      → load_transcriber m.moonshine_voice c ≡ ok t
      → load_intent_catalog m.unicode m.source c.intent_catalog_path
        ≡ Loading.loaded (build_catalog m.unicode d)
      → validate_unique_intents_and_aliases m.unicode d ≡ valid d
      → new_resolver_of m.disk c.slm_enabled c.slm_llama_cli c.slm_model_path ≡ built q
      → ((prompt : Text) → IsUndisturbed (m.llama.run prompt))
      → 0 < frame_samples
      → iter_audio_frames pcm frame_samples ≡ ok frames
      → 0 < length pcm
      → length (payloads frames) ≤ 32 * min opts.max_utterance_ms (nat_of c.max_audio_ms)
      → t.transcribe_without_streaming (samples_of (payloads frames)) 16000 ≡ ok (transcript, ms)
      → 0 < length (extract_transcript_text m.unicode transcript)
      → Elem r d.intents
      → Elem a r.aliases
      → compact m.unicode (extract_transcript_text m.unicode transcript) ≡ compact m.unicode a
      → IsScheduled maxsize 0 (session_events opts frames) es
      → (create_app m now
          ≡ built (
              Running.moonshine
                (parts_of m c t (build_catalog m.unicode d))
                (new_app now (new_moonshine (parts_of m c t (build_catalog m.unicode d)) q))))
        × (result : StiResult) × IsRecognised r
            (extract_transcript_text m.unicode transcript)
            result
        × IsAnswered opts.correlation_id result (
            take_turns
              (moonshine
                (parts_of m c t (build_catalog m.unicode d))
                (qwen m.llama m.unicode m.floats))
              maxsize
              (first_turns es)
              (new_app now (new_moonshine (parts_of m c t (build_catalog m.unicode d)) q)))
  alias-IsAnswered maxsize es c t d q opts pcm frame_samples frames transcript ms r a conf opened
        read accepted located going pos cut some_pcm room heard said is_recipe is_alias same k =
      let parts = parts_of m c t (build_catalog m.unicode d) in
      let slm = qwen m.llama m.unicode m.floats in
      let p = new_moonshine parts q in
      let text = extract_transcript_text m.unicode transcript in
      let (result, is_of, (sent, returned, state, locked)) =
        serve_transcribed t parts slm maxsize es opts pcm frame_samples frames (new_manager now p)
          transcript ms pos cut some_pcm room (unfold new_manager in refl) heard said
          (λ s. qwen-IsExpected m.llama m.unicode m.floats text parts.catalog s going) k in
      let matches : match_intent parts text ≡ matched r r.exact_confidence =
        unfold match_intent in
        match-alias m.unicode m.floats d accepted r a text c.unknown_confidence is_recipe is_alias
          same in
      (
        create_moonshine c t (build_catalog m.unicode d) q conf opened read located,
        result,
        is_recognised r (match_intent parts text) text ms result matches is_of,
        first_turns-IsAnswered (moonshine parts slm) maxsize es now p opts.correlation_id result
            sent returned state locked,
      )
