-- ===== src/Tests/Fixtures.antt =====
-- The session, the catalog and the parameters that the tests share.
use nubjuk_brain.Client.{AudioFrame, to_wire}
use nubjuk_brain.Server.{
  Event, received, worked, looked, binary, message, session_start, session_end,
}
use nubjuk_brain.Server.Timing.{IsScheduled}
use nubjuk_brain.Server.Sending.{session_events, frame_events}
use nubjuk_brain.Prelude.{
  inr, ℕ, none, zero, suc, ◌-◌, ◌*◌, ◌/◌, refl, false, true, some, List, [], ◌∷◌, codes, leb, ◌==◌,
  arith,
}
use nubjuk_brain.Errors.{ok, raise, runtime}
use nubjuk_brain.Json.{end}
use nubjuk_brain.Pipeline.Pcm.{pos}
use nubjuk_brain.Pipeline.{SessionOpts, StiResult, StiPipeline}
use nubjuk_brain.Pipeline.Mock.{MockPipeline}
use nubjuk_brain.Session.Settled.{Starts}
use nubjuk_brain.Session.{SessionManager, audio_in, new_stats}
use nubjuk_brain.Intent.Normalize.{Unicode, UnicodeLaws}
use nubjuk_brain.Intent.Phonetic.{Floats, FloatsLaws}
use nubjuk_brain.Intent.Recipe.{IntentRecipe, IntentCatalogData}

abbrev pub demo_opts : SessionOpts
demo_opts = record { correlation_id = "c1"; max_utterance_ms = 8000; language = "ko" }

abbrev pub demo_mock : MockPipeline
demo_mock = record {
  config = record {
    intent = codes "stop";
    confidence = 900;
    delay_ms = pos 0;
    server_version = codes "0.1.0";
  };
  opts = some demo_opts;
  audio_bytes = 0;
  cancelled = false;
}

-- a pipeline that answers at once, and its result
abbrev pub answer : StiResult
answer = record {
  intent = codes "stop";
  slots = end;
  confidence = 900;
  raw_text = none;
  asr_ms = 0;
  slm_ms = 0;
}

abbrev pub answering : StiPipeline (Unit {0})
answering = record {
  start_session = λ opts p. (ok tt, p);
  feed_audio = λ pcm p. (ok tt, p);
  finish_session = λ p. (ok answer, p);
  cancel_session = λ p. p;
}

pub answering-Starts : Starts answering
answering-Starts opts p = (p, refl)

abbrev pub failing : StiPipeline (Unit {0})
failing = record {
  start_session = λ opts p. (ok tt, p);
  feed_audio = λ pcm p. (ok tt, p);
  finish_session = λ p. (raise (runtime "boom"), p);
  cancel_session = λ p. p;
}

-- a session that takes audio
abbrev pub open_session : {P : Type 0} → P → SessionManager P
open_session p = record {
  pipeline = p;
  locked = true;
  state = audio_in;
  opts = some demo_opts;
  stats = new_stats 0;
  log = [];
}

abbrev pub demo_unicode : Unicode
demo_unicode = record { casefold = λ c. c ∷ []; is_word = λ c. leb 97 c; is_space = λ c. c == 32 }

pub demo_unicode-UnicodeLaws : UnicodeLaws demo_unicode
demo_unicode-UnicodeLaws = record { blank = refl; folded = λ c. (refl, tt) }

abbrev pub per_mille : ℕ → ℕ → ℕ
per_mille zero n = 0
per_mille (suc d) n = suc d * 1000 / n

abbrev pub demo_floats : Floats
demo_floats = record {
  one = 1000;
  ratio = per_mille;
  one_minus = λ x. 1000 - x;
  round_3 = λ x. x;
  match_floor = 760;
  candidate_floor = 500;
}

pub demo_floats-FloatsLaws : FloatsLaws demo_floats
demo_floats-FloatsLaws = record {
  ratio_zero = λ n. refl;
  one_minus_zero = refl;
  one_minus_le = λ x. omega arith;
  match_floor_lt = omega arith;
}

abbrev pub demo_recipe : IntentRecipe
demo_recipe = record {
  id = codes "go";
  aliases = codes "go on" ∷ codes "start" ∷ [];
  asr_noise = codes "gone" ∷ [];
  description = [];
  slots = end;
  confidence = 900;
  exact_confidence = 980;
  phonetic_confidence = 820;
}

abbrev pub demo_data : IntentCatalogData
demo_data = record { catalog_version = codes "v1"; intents = demo_recipe ∷ [] }

-- two Hangul syllables
abbrev pub syllables : List ℕ
syllables = 44032 ∷ 44033 ∷ []

-- a session of one frame, which the worker feeds when its end is already awaited
abbrev pub late_events : SessionOpts → AudioFrame → List Event
late_events opts f =
    worked
    ∷ received 7 (message (session_start opts))
    ∷ received 8 (binary (to_wire f))
    ∷ received 9 (message (session_end opts.correlation_id 1))
    ∷ looked 9 false
    ∷ worked
    ∷ looked 10 true
    ∷ []

pub late_events-IsScheduled :
    (opts : SessionOpts) (f : AudioFrame)
    → IsScheduled 2 0 (session_events opts (f ∷ [])) (late_events opts f)
unfolding session_events frame_events
late_events-IsScheduled opts f = (refl, tt, (refl, inr (omega arith), (refl, tt, (refl, refl))))
