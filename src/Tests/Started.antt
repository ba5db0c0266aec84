-- ===== src/Tests/Started.antt =====
-- Servers that are started from an environment, with either pipeline.
use nubjuk_brain.Prelude.{
  ℕ, ◌≡◌, refl, arith, none, some, true, inl, [], ◌∷◌, codes, str_eq, text_eq, if◌then◌else◌,
}
use nubjuk_brain.Errors.{ok}
use nubjuk_brain.Pipeline.{StiResult}
use nubjuk_brain.Pipeline.Mock.{new_mock, mock}
use nubjuk_brain.Pipeline.Pcm.{pos}
use nubjuk_brain.Pipeline.Moonshine.{Parts, moonshine, new_moonshine}
use nubjuk_brain.Pipeline.Moonshine.Transcriber.{
  Transcript, Transcriber, extract_transcript_text, line_texts,
}
use nubjuk_brain.Pipeline.Qwen.Prompt.{join}
use nubjuk_brain.Pipeline.Qwen.Output.{strip}
use nubjuk_brain.Pipeline.Qwen.Process.{qwen, new_resolver}
use nubjuk_brain.Pipeline.Qwen.Paths.{
  Disk, locate, resolve_executable, resolve_model_path, has_slash, found,
}
use nubjuk_brain.Intent.Normalize.{lstrip, rstrip, push_unless_blank}
use nubjuk_brain.Intent.Catalog.{build_catalog}
use nubjuk_brain.Client.Frames.{payloads}
use nubjuk_brain.Config
use nubjuk_brain.Config.{
  MoonshineTinyKoConfig, Environment, RuntimeConfig, load_config_from_env, is_negative, is_positive,
  require, in_unit, check_moonshine, check_slm, natural, float_of, get_or_default, or_none,
  float_from_env, int_from_env, bool_from_env, moonshine_from_env,
}
use nubjuk_brain.Server.Many.{new_app, take_turns}
use nubjuk_brain.Server.Many.First.{first_turns, IsAnswered}
use nubjuk_brain.Setup.{
  MoonshineVoice, Machine, built, ◌>>=◌, load_transcriber, open_model, find_model, new_resolver_of,
  Running, parts_of, create_app,
}
use nubjuk_brain.Setup.Ready.{IsStarted, create_app-IsStarted}
use nubjuk_brain.Setup.Mocked.{mock_result, mock-IsAnswered}
use nubjuk_brain.Setup.Recognised.{IsRecognised, alias-IsAnswered, create_moonshine}
use nubjuk_brain.Tests.Fixtures.{
  demo_opts, demo_unicode, demo_floats, demo_recipe, demo_data, late_events,
  late_events-IsScheduled,
}
use nubjuk_brain.Tests.Settings.{thousandths, demo_environment, demo_loaded}
use nubjuk_brain.Tests.Matching.{demo_source, demo_source_loaded, accepted, same}
use nubjuk_brain.Tests.Recognition.{endless, demo_moonshine}
use nubjuk_brain.Tests.Spoken.{pcm, frame, frames, cut}

abbrev said : Transcript
said = record { lines = some (codes " go!on ") ∷ [] }

abbrev hearing : Transcriber
hearing = record { transcribe_without_streaming = λ audio rate. ok (said, 12) }

abbrev demo_voice : MoonshineVoice
demo_voice = record {
  get_model_for_language = λ language. ok (codes "tiny-ko", true);
  new_transcriber = λ path tokens. ok hearing;
}

abbrev demo_disk : Disk
demo_disk = record {
  is_file = λ path. true;
  is_executable = λ path. true;
  path_text = λ path. path;
  which = λ path. some path;
}

-- a machine with an environment
abbrev machine : Environment ℕ → Machine
machine environment = record {
  float_type = thousandths;
  unicode = demo_unicode;
  floats = demo_floats;
  environment = environment;
  source = demo_source;
  disk = demo_disk;
  moonshine_voice = some demo_voice;
  llama = endless;
}

-- the configuration of the mock pipeline that is loaded
abbrev mock_config : Config.MockBrainConfig ℕ
mock_config = record {
  intent = codes "roll_right";
  confidence = 500;
  delay_ms = pos 250;
  server_version = codes "0.1.0";
}

mock-IsAnswered_example :
    (create_app (machine demo_environment) 0
      ≡ built (Running.mock (new_app 0 (new_mock mock_config))))
    × IsAnswered "c1" (mock_result mock_config) (
        take_turns mock 2
          (first_turns (late_events demo_opts frame))
          (new_app 0 (new_mock mock_config)))
mock-IsAnswered_example =
    mock-IsAnswered (machine demo_environment) 0 2 (late_events demo_opts frame) mock_config
      demo_opts frames demo_loaded (late_events-IsScheduled demo_opts frame)

-- an environment that selects the other pipeline, and nothing else
abbrev moonshine_environment : Environment ℕ
moonshine_environment = record demo_environment {
  getenv = λ name. if str_eq name "BRAIN_PIPELINE" then some (codes "moonshine_tiny_ko") else none;
}

abbrev selected : MoonshineTinyKoConfig ℕ
selected = record demo_moonshine { slm_confidence = 780; slm_min_catalog_confidence = 720 }

selected_loaded :
    load_config_from_env thousandths demo_unicode moonshine_environment
    ≡ Config.loaded (RuntimeConfig.moonshine_tiny_ko selected)
unfolding load_config_from_env moonshine_from_env check_moonshine check_slm in_unit float_from_env
    int_from_env bool_from_env get_or_default or_none natural float_of is_negative is_positive
    require Config.◌>>=◌ text_eq
selected_loaded = refl

opened : load_transcriber (some demo_voice) selected ≡ ok hearing
unfolding load_transcriber open_model find_model
opened = refl

located :
    new_resolver_of demo_disk true selected.slm_llama_cli selected.slm_model_path
    ≡ built (some new_resolver)
unfolding new_resolver_of ◌>>=◌ locate resolve_executable resolve_model_path has_slash found
located = refl

abbrev selected_parts : Parts
selected_parts =
    parts_of (machine moonshine_environment) selected hearing (build_catalog demo_unicode demo_data)

alias-IsAnswered_example :
    (create_app (machine moonshine_environment) 0
      ≡ built (
          Running.moonshine selected_parts
            (new_app 0 (new_moonshine selected_parts (some new_resolver)))))
    × (result : StiResult) × IsRecognised demo_recipe
        (extract_transcript_text demo_unicode said)
        result
    × IsAnswered "c1" result (
        take_turns
          (moonshine selected_parts (qwen endless demo_unicode demo_floats))
          2
          (first_turns (late_events demo_opts frame))
          (new_app 0 (new_moonshine selected_parts (some new_resolver))))
alias-IsAnswered_example =
    alias-IsAnswered (machine moonshine_environment) 0 2 (late_events demo_opts frame) selected
      hearing demo_data (some new_resolver) demo_opts pcm 2 frames said 12 demo_recipe
      (codes "go on") selected_loaded opened demo_source_loaded accepted located (λ prompt. tt)
      (omega arith) cut (omega arith) (unfold payloads in omega arith) refl
      (unfold extract_transcript_text join line_texts strip lstrip rstrip push_unless_blank in
        omega arith)
      (inl refl) (inl refl)
      (unfold extract_transcript_text join line_texts strip lstrip rstrip push_unless_blank in same)
      (late_events-IsScheduled demo_opts frame)

create_app-IsStarted_example : IsStarted (machine moonshine_environment) 0 (
    Running.moonshine selected_parts (new_app 0 (new_moonshine selected_parts (some new_resolver))))
create_app-IsStarted_example =
    create_app-IsStarted (machine moonshine_environment) 0
      (Running.moonshine selected_parts
        (new_app 0 (new_moonshine selected_parts (some new_resolver))))
      (create_moonshine (machine moonshine_environment) 0 selected hearing
        (build_catalog demo_unicode demo_data) (some new_resolver) selected_loaded opened
        demo_source_loaded located)
