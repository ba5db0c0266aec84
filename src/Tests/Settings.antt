-- ===== src/Tests/Settings.antt =====
-- The configuration, read from an environment that sets three variables.
use nubjuk_brain.Prelude.{
  ℕ, ◌≡◌, refl, none, some, Option, Text, String, leb, str_eq, text_eq, codes, if◌then◌else◌,
}
use nubjuk_brain.Pipeline.Pcm.{pos}
use nubjuk_brain.Config.{
  FloatType, Environment, RuntimeConfig, loaded, ◌>>=◌, is_negative, require, in_unit, check_mock,
  natural, float_of, get_or_default, float_from_env, int_from_env, mock_from_env,
  load_config_from_env,
}
use nubjuk_brain.Config.Accepted.{IsAccepted, load_config_from_env-IsAccepted}
use nubjuk_brain.Tests.Fixtures.{demo_unicode}

-- floats that are counted in thousandths
abbrev pub thousandths : FloatType ℕ
thousandths = record {
  le = leb;
  zero = 0;
  one = 1000;
  confidence = 920;
  max_tokens_per_second = 13000;
  unknown_confidence = 200;
  slm_confidence = 780;
  slm_min_catalog_confidence = 720;
}

abbrev pub demo_getenv : String → Option Text
demo_getenv name =
    if str_eq name "BRAIN_PIPELINE"
    then some (codes "mock")
    else if str_eq name "MOCK_BRAIN_DELAY_MS"
    then some (codes "250")
    else if str_eq name "MOCK_BRAIN_CONFIDENCE"
    then some (codes "0.5")
    else none

abbrev pub demo_environment : Environment ℕ
demo_environment = record {
  getenv = demo_getenv;
  to_float = λ raw. some 500;
  to_int = λ raw. some (pos 250);
  default_llama_cli = codes "llama-cli";
  default_model_path = codes "qwen.gguf";
}

abbrev pub demo_config : RuntimeConfig ℕ
demo_config = RuntimeConfig.mock (record {
  intent = codes "roll_right";
  confidence = 500;
  delay_ms = pos 250;
  server_version = codes "0.1.0";
})

pub demo_loaded :
    load_config_from_env thousandths demo_unicode demo_environment ≡ loaded demo_config
unfolding load_config_from_env mock_from_env check_mock in_unit float_from_env int_from_env
    get_or_default natural float_of is_negative require ◌>>=◌ text_eq
demo_loaded = refl

load_config_from_env-IsAccepted_example : IsAccepted thousandths demo_config
load_config_from_env-IsAccepted_example =
    load_config_from_env-IsAccepted thousandths demo_unicode demo_environment demo_config
      demo_loaded
