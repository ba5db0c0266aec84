-- ===== src/Tests/Recognition.antt =====
-- The moonshine pipeline, with a transcriber that hears one text and a resolver that answers.
use nubjuk_brain.Prelude.{
  ◌≤◌, ◌*◌, min, none, true, ℕ, ◌+◌, ◌<◌, inl, ◌||◌, ◌==◌, ◌≡◌, refl, some, false, List, [], ◌∷◌,
  codes, length, arith,
}
use nubjuk_brain.Config.{MoonshineTinyKoConfig}
use nubjuk_brain.Pipeline.Pcm.{pos}
use nubjuk_brain.Errors.{ok}
use nubjuk_brain.Intent.Normalize.{lstrip, rstrip, push_unless_blank}
use nubjuk_brain.Intent.Catalog.{build_catalog}
use nubjuk_brain.Pipeline.Moonshine
use nubjuk_brain.Pipeline.Moonshine.{
  max_audio_ms, SlmIntentResolver, Parts, Moonshine, strip, match_intent, finish_session, moonshine,
}
use nubjuk_brain.Pipeline.Moonshine.Audio.{odd_audio_blocks, feed_all, feed_all-within}
use nubjuk_brain.Pipeline.Moonshine.Recognition.{Returns, finish_session-Returns}
use nubjuk_brain.Intent.Catalog.{starts_with}
use nubjuk_brain.Intent.Normalize.{Unicode}
use nubjuk_brain.Pipeline.Qwen.Choice.{parse_intent_from_slm_output}
use nubjuk_brain.Pipeline.Qwen.Choice.Places.{OccursAt}
use nubjuk_brain.Pipeline.Qwen.Choice.Last.{parse_intent_from_slm_output_last}
use nubjuk_brain.Pipeline.Qwen.Output.{is_break}
use nubjuk_brain.Pipeline.Qwen.Output.Line.{BreaksAreSpace}
use nubjuk_brain.Pipeline.Qwen.Process.{timed_out, Llama, QwenSlmIntentResolver, new_resolver}
use nubjuk_brain.Pipeline.Qwen.Process.Stopped
use nubjuk_brain.Pipeline.Qwen.Process.Stopped.{finish_session_qwen-Returns}
use nubjuk_brain.Session
use nubjuk_brain.Session.Schedule.{Call, run}
use nubjuk_brain.Pipeline.Moonshine.Log.{log_finish}
use nubjuk_brain.Pipeline.Moonshine.Log.Traced.{IsTold, finish_session-IsTold}
use nubjuk_brain.Tests.Fixtures.{demo_opts, open_session, demo_unicode, demo_floats, demo_data}

abbrev pub demo_moonshine : MoonshineTinyKoConfig ℕ
demo_moonshine = record {
  language = codes "ko";
  model_arch = codes "tiny";
  model_dir = none;
  intent_catalog_path = none;
  max_audio_ms = pos 5000;
  max_tokens_per_second = 13000;
  unknown_confidence = 200;
  slm_enabled = true;
  slm_llama_cli = codes "llama-cli";
  slm_model_path = codes "qwen.gguf";
  slm_timeout_ms = pos 5000;
  slm_confidence = 930;
  slm_min_catalog_confidence = 950;
  slm_max_tokens = pos 16;
  slm_context_size = pos 2048;
  server_version = codes "0.1.0";
}

abbrev pub parts : Parts
parts = record {
  config = demo_moonshine;
  catalog = build_catalog demo_unicode demo_data;
  unicode = demo_unicode;
  floats = demo_floats;
  transcribe = λ pcm. ok (codes " gone ", 12);
}

abbrev pub resolver : SlmIntentResolver (Unit {0})
resolver = record {
  resolve =
      λ raw_text catalog r. (ok (record { intent = codes "go"; raw_output = []; slm_ms = 3 }), r);
  cancel = λ r. r;
}

abbrev pub heard : List ℕ → Moonshine (Unit {0})
heard pcm = record {
  opts = some demo_opts;
  pcm = pcm;
  max_audio_bytes = 160000;
  cancelled = false;
  intent_resolver = some tt;
}

finish_session-Returns_example :
    Returns parts resolver
      (match_intent parts (strip parts (codes " gone ")))
      (strip parts (codes " gone "))
      12
      (finish_session parts resolver (heard (1 ∷ 2 ∷ []))).0
finish_session-Returns_example =
    finish_session-Returns parts resolver (heard (1 ∷ 2 ∷ [])) (codes " gone ") 12 refl
      (omega arith) refl refl (unfold strip lstrip rstrip push_unless_blank in omega arith)
      (λ r. tt)

odd_audio_blocks_example :
    (Session.try_start
      (moonshine parts resolver)
      9
      demo_opts
      (run (moonshine parts resolver) (Call.feed_audio [] ∷ []) (record {
        manager =
            (Session.finish (moonshine parts resolver) 0 (open_session (heard (1 ∷ 2 ∷ 3 ∷ [])))).1;
        pending = 0;
      })).manager).0
    ≡ ok false
odd_audio_blocks_example =
    odd_audio_blocks parts resolver 0 (open_session (heard (1 ∷ 2 ∷ 3 ∷ []))) refl refl refl refl
      (Call.feed_audio [] ∷ []) (tt, tt) 9 demo_opts

-- llama-cli, which never comes to an end and has to be killed
abbrev pub endless : Llama
endless = record { run = λ prompt. timed_out; obeys = λ p. false; fixed_3 = λ score. [] }

abbrev heard_qwen : Moonshine QwenSlmIntentResolver
heard_qwen = record {
  opts = some demo_opts;
  pcm = 1 ∷ 2 ∷ [];
  max_audio_bytes = 160000;
  cancelled = false;
  intent_resolver = some new_resolver;
}

stop_occurs : OccursAt (codes "go or stop") (codes "stop") 6
unfolding starts_with
stop_occurs = refl

parse_intent_from_slm_output_last_example :
    (i : ℕ) × OccursAt
      (codes "go or stop")
      (parse_intent_from_slm_output (codes "go or stop") (codes "stop" ∷ codes "go" ∷ []))
      i
    × (6 < i + length (codes "stop"))
parse_intent_from_slm_output_last_example =
    parse_intent_from_slm_output_last (codes "go or stop") (codes "stop" ∷ codes "go" ∷ [])
      (codes "stop") 6 (inl refl) (omega arith) stop_occurs

-- tables in which the ends of lines are white space
abbrev spaced : Unicode
spaced = record demo_unicode { is_space = λ c. is_break c || c == 32 }

spaced-BreaksAreSpace : BreaksAreSpace spaced
spaced-BreaksAreSpace c e = ground arith

finish_session-IsTold_example :
    IsTold parts
      (heard (1 ∷ 2 ∷ []))
      (finish_session parts resolver (heard (1 ∷ 2 ∷ []))).0
      (log_finish parts resolver (heard (1 ∷ 2 ∷ [])))
finish_session-IsTold_example = finish_session-IsTold parts resolver (heard (1 ∷ 2 ∷ []))

feed_all-within_example :
    length
      (feed_all parts
        ((1 ∷ 2 ∷ []) ∷ (3 ∷ 4 ∷ []) ∷ [])
        (Moonshine.start_session parts demo_opts (heard [])).1).pcm
    ≤ 32 * min demo_opts.max_utterance_ms (max_audio_ms parts)
feed_all-within_example =
    feed_all-within parts demo_opts ((1 ∷ 2 ∷ []) ∷ (3 ∷ 4 ∷ []) ∷ []) (heard [])
