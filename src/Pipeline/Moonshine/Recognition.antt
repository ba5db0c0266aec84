-- ===== src/Pipeline/Moonshine/Recognition.antt =====
-- brain/pipeline/moonshine_tiny_ko.py: whose intent a session's result carries
use nubjuk_brain.Prelude.{
  ℕ, ◌%◌, ◌≤◌, ◌<◌, ◌≡◌, refl, String, false, Option, none, some, Text, length, text_eq_iff, arith,
}
use nubjuk_brain.Errors.{Result, ok, raise, sti, cancelled_error, runtime}
use nubjuk_brain.Pipeline.{StiResult}
use nubjuk_brain.Pipeline.Pcm.{pcm_s16le_stats, pcm_s16le_samples}
use nubjuk_brain.Intent.Catalog.{IntentMatch, match_intent_id}
use nubjuk_brain.Pipeline.Moonshine.{
  Parts, Moonshine, SlmIntentDecision, SlmIntentResolver, should_accept_slm_match, decide, strip,
  match_intent, sti_result, after_resolve, ask_resolver, understand, after_transcribe,
  transcribe_audio, finish_session, slm_skip_reason,
}

-- A decision, or a `StiError`.
abbrev pub IsExpected : Result SlmIntentDecision → Type 0
IsExpected (ok _) = Unit
IsExpected (raise (sti _)) = Unit
IsExpected (raise _) = ⊥

-- A result for a transcript: the intent of the match, at a confidence that is not below its own.
pub record IsOf (m : IntentMatch) (text : Text) (ms : ℕ) (r : StiResult) : Type 0 where
  pub intent : r.intent ≡ m.intent
  pub confidence : m.confidence ≤ r.confidence
  pub raw_text : r.raw_text ≡ some text
  pub asr_ms : r.asr_ms ≡ ms

decide_same :
    (m : IntentMatch) (o : Option IntentMatch)
    → ((decide m o).intent ≡ m.intent) × (m.confidence ≤ (decide m o).confidence)
unfolding decide should_accept_slm_match
decide_same m none = (refl, omega arith)
decide_same m (some s) = ground (arith, text_eq_iff s.intent m.intent)

module _ (parts : Parts) {R : Type 0} (resolver : SlmIntentResolver R) where
  -- a result is returned, and it is one of `m`
  abbrev pub Returns : IntentMatch → Text → ℕ → Result StiResult → Type 0
  Returns m text ms (ok r) = IsOf m text ms r
  Returns m text ms (raise _) = ⊥

  after_resolve-Returns :
      (text : Text) (ms : ℕ) (m : IntentMatch) (d : Result SlmIntentDecision) (p : Moonshine R)
      → IsExpected d
      → Returns m text ms (after_resolve parts resolver text ms m d p).0
  unfolding after_resolve sti_result
  after_resolve-Returns text ms m (ok d) p h =
      let (i, c) =
        decide_same m (match_intent_id parts.catalog d.intent parts.config.slm_confidence) in
      record { intent = i; confidence = c; raw_text = refl; asr_ms = refl }
  after_resolve-Returns text ms m (raise (sti e)) p h = record {
    intent = refl;
    confidence = omega arith;
    raw_text = refl;
    asr_ms = refl;
  }
  after_resolve-Returns text ms m (raise cancelled_error) p h = absurd h
  after_resolve-Returns text ms m (raise (runtime x)) p h = absurd h

  ask_resolver-Returns :
      (text : Text) (ms : ℕ) (m : IntentMatch) (reason : Option String) (o : Option R)
      (p : Moonshine R)
      → ((r : R) → IsExpected (resolver.resolve text parts.catalog r).0)
      → Returns m text ms (ask_resolver parts resolver text ms m reason o p).0
  unfolding ask_resolver sti_result
  ask_resolver-Returns text ms m none (some r) p h =
      after_resolve-Returns text ms m (resolver.resolve text parts.catalog r).0
        (record p { intent_resolver = some (resolver.resolve text parts.catalog r).1 }) (h r)
  ask_resolver-Returns text ms m none none p h = record {
    intent = refl;
    confidence = omega arith;
    raw_text = refl;
    asr_ms = refl;
  }
  ask_resolver-Returns text ms m (some x) o p h = record {
    intent = refl;
    confidence = omega arith;
    raw_text = refl;
    asr_ms = refl;
  }

  finish_session_understands :
      (p : Moonshine R) (text : Text) (ms : ℕ)
      → p.cancelled ≡ false
      → 0 < length p.pcm
      → length p.pcm % 2 ≡ 0
      → parts.transcribe p.pcm ≡ ok (text, ms)
      → finish_session parts resolver p ≡ understand parts resolver (strip parts text) ms p
  unfolding finish_session transcribe_audio pcm_s16le_stats pcm_s16le_samples after_transcribe
  finish_session_understands p text ms c n h t = ground arith

  understand_asks :
      (text : Text) (ms : ℕ) (p : Moonshine R)
      → 0 < length text
      → understand parts resolver text ms p
        ≡ ask_resolver parts resolver text ms
            (match_intent parts text)
            (slm_skip_reason (match_intent parts text) parts.config.slm_min_catalog_confidence)
            p.intent_resolver
            p
  unfolding understand
  understand_asks text ms p n = ground arith

  understand-Returns :
      (text : Text) (ms : ℕ) (p : Moonshine R)
      → 0 < length text
      → ((r : R) → IsExpected (resolver.resolve text parts.catalog r).0)
      → Returns (match_intent parts text) text ms (understand parts resolver text ms p).0
  understand-Returns text ms p n h =
      let m = match_intent parts text in
      rw (understand_asks text ms p n) (
        ask_resolver-Returns text ms m (slm_skip_reason m parts.config.slm_min_catalog_confidence)
          p.intent_resolver p h)

  -- If the session is not cancelled, its audio is whole samples, at least one, the transcriber
  -- returns a text that is not blank, and the resolver raises nothing but a `StiError`, then
  -- `finish_session` returns a result: its text is the stripped transcript, its intent is the one
  -- that the catalog alone matches to that text, whatever the resolver decides, and its confidence
  -- is not below the catalog's.
  pub finish_session-Returns :
      (p : Moonshine R) (text : Text) (ms : ℕ)
      → p.cancelled ≡ false
      → 0 < length p.pcm
      → length p.pcm % 2 ≡ 0
      → parts.transcribe p.pcm ≡ ok (text, ms)
      → 0 < length (strip parts text)
      → ((r : R) → IsExpected (resolver.resolve (strip parts text) parts.catalog r).0)
      → Returns
          (match_intent parts (strip parts text))
          (strip parts text)
          ms
          (finish_session parts resolver p).0
  finish_session-Returns p text ms c n h t k e =
      rw (finish_session_understands p text ms c n h t)
        (understand-Returns (strip parts text) ms p k e)
