-- ===== src/Pipeline/Moonshine/Log/Traced.antt =====
-- brain/pipeline/moonshine_tiny_ko.py: that the log tells what `finish_session` answers
use nubjuk_brain.Prelude.{
  if-both, ℕ, ◌≤◌, ◌≡◌, refl, String, Option, none, some, List, [], ◌∷◌, ◌++◌, Text, length, ◌==◌,
  All, arith,
}
use nubjuk_brain.Errors.{Result, ok, raise, sti, cancelled_error, runtime}
use nubjuk_brain.Pipeline.{StiResult}
use nubjuk_brain.Pipeline.Pcm.{PcmStats, pcm_s16le_stats}
use nubjuk_brain.Pipeline.Moonshine.{
  SlmIntentDecision, SlmIntentResolver, Parts, Moonshine, strip, match_intent, sti_result,
  after_resolve, ask_resolver, understand, after_transcribe, transcribe_audio, finish_session,
}
use nubjuk_brain.Pipeline.Moonshine.Log.{
  LogLine, asr_answer, slm_error, intent_match, log_resolve, log_ask, log_understand,
  log_transcribed, log_audio, log_finish,
}
use nubjuk_brain.Intent.Catalog.{IntentMatch}
use nubjuk_brain.Session.{logged_id}

-- not the line of an answer
abbrev pub IsBefore : LogLine → Type 0
IsBefore (intent_match id version intent confidence source) = ⊥
IsBefore _ = Unit

module _ (parts : Parts) where
  -- The lines behind that of the transcript: at most one of the resolver, and that of the answer.
  pub record IsAnswerOf (id : String) (text : Text) (ms : ℕ) (log : List LogLine) (r : StiResult)
      : Type 0 where
    pub lines :
        (middle : List LogLine) × (source : String) × (log
          ≡ middle
            ++ intent_match id parts.catalog.catalog_version r.intent r.confidence source ∷ [])
        × (length middle ≤ 1)
        × All IsBefore middle
    pub raw_text : r.raw_text ≡ some text
    pub asr_ms : r.asr_ms ≡ ms

  abbrev Follows :
      {R : Type 0} → String → Text → ℕ → Result StiResult × Moonshine R → List LogLine → Type 0
  Follows id text ms (ok r, p) lines = IsAnswerOf id text ms lines r
  Follows id text ms (raise e, p) lines = All IsBefore lines

  -- What the lines of a call tell of its answer.
  abbrev pub IsTold : {R : Type 0} → Moonshine R → Result StiResult → List LogLine → Type 0
  IsTold p (ok r) lines =
      (text : Text) × (ms : ℕ) × (stats : PcmStats) × (rest : List LogLine) × (lines
        ≡ asr_answer (logged_id p.opts) text ms (length p.pcm) stats ∷ rest)
      × IsAnswerOf (logged_id p.opts) text ms rest r
  IsTold p (raise e) lines = All IsBefore lines

  module _ {R : Type 0} (resolver : SlmIntentResolver R) where
    resolve-Follows :
        (id : String) (text : Text) (ms : ℕ) (m : IntentMatch) (d : Result SlmIntentDecision)
        (p : Moonshine R)
        → Follows id text ms (after_resolve parts resolver text ms m d p) (log_resolve parts id m d)
    unfolding after_resolve log_resolve sti_result
    resolve-Follows id text ms m (ok d) p = record {
      lines = (_ ∷ [], _, refl, omega arith, (tt, tt));
      raw_text = refl;
      asr_ms = refl;
    }
    resolve-Follows id text ms m (raise (sti e)) p = record {
      lines = (slm_error id e.code e.message ∷ [], "catalog", refl, omega arith, (tt, tt));
      raw_text = refl;
      asr_ms = refl;
    }
    resolve-Follows id text ms m (raise cancelled_error) p = tt
    resolve-Follows id text ms m (raise (runtime x)) p = tt

    ask-Follows :
        (id : String) (text : Text) (ms : ℕ) (m : IntentMatch) (reason : Option String)
        (o : Option R) (p : Moonshine R)
        → Follows id text ms
            (ask_resolver parts resolver text ms m reason o p)
            (log_ask parts resolver id text m reason o)
    unfolding ask_resolver log_ask sti_result
    ask-Follows id text ms m none (some r) p = resolve-Follows id text ms m _ _
    ask-Follows id text ms m none none p = record {
      lines = ([], "catalog", refl, omega arith, tt);
      raw_text = refl;
      asr_ms = refl;
    }
    ask-Follows id text ms m (some x) none p = record {
      lines = ([], "catalog", refl, omega arith, tt);
      raw_text = refl;
      asr_ms = refl;
    }
    ask-Follows id text ms m (some x) (some r) p = record {
      lines = (_ ∷ [], "catalog", refl, omega arith, (tt, tt));
      raw_text = refl;
      asr_ms = refl;
    }

    understand-Follows :
        (id : String) (text : Text) (ms : ℕ) (p : Moonshine R)
        → Follows id text ms
            (understand parts resolver text ms p)
            (log_understand parts resolver id text p.intent_resolver)
    unfolding understand log_understand
    understand-Follows id text ms p =
        if-both (Follows id text ms) (length text == 0) (λ _. tt)
          (λ _. ask-Follows id text ms (match_intent parts text) _ p.intent_resolver p)

    -- the line of the transcript in front
    told :
        (p : Moonshine R) (text : Text) (ms : ℕ) (stats : PcmStats)
        (r : Result StiResult × Moonshine R) (rest : List LogLine)
        → Follows (logged_id p.opts) text ms r rest
        → IsTold p r.0 (asr_answer (logged_id p.opts) text ms (length p.pcm) stats ∷ rest)
    told p text ms stats (ok r, q) rest h = (text, ms, stats, rest, refl, h)
    told p text ms stats (raise e, q) rest h = (tt, h)

    transcribe-IsTold :
        (stats : PcmStats) (t : Result (Text × ℕ)) (p : Moonshine R)
        → IsTold p
            (after_transcribe parts resolver t p).0
            (log_transcribed parts resolver stats t p)
    unfolding after_transcribe log_transcribed
    transcribe-IsTold stats (raise e) p = tt
    transcribe-IsTold stats (ok (text, ms)) p =
        if-both {A = Result StiResult × Moonshine R} (λ r lines. IsTold p r.0 lines) p.cancelled
          (λ _. tt)
          (λ _.
            told p (strip parts text) ms stats _ _
              (understand-Follows (logged_id p.opts) (strip parts text) ms p))

    audio-IsTold :
        (p : Moonshine R)
        → IsTold p
            (transcribe_audio parts resolver p).0
            (log_audio parts resolver (pcm_s16le_stats p.pcm) p)
    unfolding transcribe_audio log_audio
    audio-IsTold p =
        elim (pcm_s16le_stats p.pcm)
          as (λ s.
            IsTold p
              (elim s as (λ x. Result StiResult × Moonshine R) [
                | raise e ↦ (raise e, p)
                | ok _ ↦ after_transcribe parts resolver (parts.transcribe p.pcm) p
              ]).0
              (log_audio parts resolver s p)) [
                | raise e ↦ tt
                | ok stats ↦ transcribe-IsTold stats (parts.transcribe p.pcm) p
              ]

    -- Whatever a call of `finish_session` comes to, its log tells it. If it returns a result, the first
    -- line has the text of the result and the time of the transcriber, at most one line of the resolver
    -- follows, and the last line, the only one of an answer, has the intent and the confidence of the
    -- result; all with the id of the session. If it raises, no line of an answer is logged.
    pub finish_session-IsTold :
        (p : Moonshine R)
        → IsTold p (finish_session parts resolver p).0 (log_finish parts resolver p)
    unfolding finish_session log_finish
    finish_session-IsTold p =
        if-both {A = Result StiResult × Moonshine R} (λ r lines. IsTold p r.0 lines) p.cancelled
          (λ _. tt)
          (λ _.
            if-both {A = Result StiResult × Moonshine R} (λ r lines. IsTold p r.0 lines)
              (length p.pcm == 0) (λ _. tt) (λ _. audio-IsTold p))
