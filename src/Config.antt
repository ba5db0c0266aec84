-- ===== src/Config.antt =====
-- brain/config.py: the configurations, their checks, and how they are read from the environment. The
-- environment, `int`, `float` and the floats themselves are parameters.
pub mod Accepted
use nubjuk_brain.Prelude.{
  ℕ, zero, suc, String, Bool, true, false, ◌&&◌, ◌||◌, not, Option, none, some, List, [], ◌∷◌, Text,
  codes, text_eq, length, ◌==◌, if◌then◌else◌, leb,
}
use nubjuk_brain.Pipeline.Pcm.{ℤ, pos, negsuc}
use nubjuk_brain.Intent.Normalize.{Unicode, lstrip, rstrip, casefold}

-- The floats that are used, NaN among them: `x <= y`, and the numbers that are named.
pub record FloatType (F : Type 0) : Type 0 where
  pub le : F → F → Bool
  pub zero : F
  pub one : F
  pub confidence : F
  pub max_tokens_per_second : F
  pub unknown_confidence : F
  pub slm_confidence : F
  pub slm_min_catalog_confidence : F

-- `os.getenv(name)`, `float(raw)` and `int(raw)`, none where they raise `ValueError`, and the two
-- default paths
pub record Environment (F : Type 0) : Type 0 where
  pub getenv : String → Option Text
  pub to_float : Text → Option F
  pub to_int : Text → Option ℤ
  pub default_llama_cli : Text
  pub default_model_path : Text

pub record MockBrainConfig (F : Type 0) : Type 0 where
  pub intent : Text
  pub confidence : F
  pub delay_ms : ℤ
  pub server_version : Text

pub record MoonshineTinyKoConfig (F : Type 0) : Type 0 where
  pub language : Text
  pub model_arch : Text
  pub model_dir : Option Text
  pub intent_catalog_path : Option Text
  pub max_audio_ms : ℤ
  pub max_tokens_per_second : F
  pub unknown_confidence : F
  pub slm_enabled : Bool
  pub slm_llama_cli : Text
  pub slm_model_path : Text
  pub slm_timeout_ms : ℤ
  pub slm_confidence : F
  pub slm_min_catalog_confidence : F
  pub slm_max_tokens : ℤ
  pub slm_context_size : ℤ
  pub server_version : Text

pub data RuntimeConfig (F : Type 0) : Type 0 where
  mock : MockBrainConfig F → RuntimeConfig F
  moonshine_tiny_ko : MoonshineTinyKoConfig F → RuntimeConfig F

-- a value, or a `ValueError` about a field or a variable
pub data Loaded (A : Type 0) : Type 0 where
  loaded : A → Loaded A
  value_error : String → String → Loaded A

infixl 5 ◌>>=◌
unfoldable pub ◌>>=◌ : {A B : Type 0} → Loaded A → (A → Loaded B) → Loaded B
loaded a >>= f = f a
value_error name text >>= f = value_error name text

-- `value < 0` and `value <= 0`
unfoldable pub is_negative : ℤ → Bool
is_negative (pos n) = false
is_negative (negsuc n) = true

unfoldable pub is_positive : ℤ → Bool
is_positive (pos zero) = false
is_positive (pos (suc n)) = true
is_positive (negsuc n) = false

-- `if not test: raise ValueError(…)`
unfoldable pub require : {A : Type 0} → Bool → String → String → Loaded A → Loaded A
require true name text next = next
require false name text next = value_error name text

module _ {F : Type 0} (fl : FloatType F) where
  -- `0 <= x <= 1`
  unfoldable pub in_unit : F → Bool
  in_unit x = fl.le fl.zero x && fl.le x fl.one

  -- `MockBrainConfig.__post_init__`
  unfoldable pub check_mock : MockBrainConfig F → Loaded (MockBrainConfig F)
  check_mock c =
      require (in_unit c.confidence) "confidence" "must be between 0 and 1"
        (require (not (is_negative c.delay_ms)) "delay_ms" "must be non-negative" (loaded c))

  -- `MoonshineTinyKoConfig.__post_init__`, from the check of `slm_timeout_ms` on
  unfoldable pub check_slm : MoonshineTinyKoConfig F → Loaded (MoonshineTinyKoConfig F)
  check_slm c = require (is_positive c.slm_timeout_ms) "slm_timeout_ms" "must be positive" (
      require (in_unit c.slm_confidence) "slm_confidence" "must be between 0 and 1" (
        require (in_unit c.slm_min_catalog_confidence) "slm_min_catalog_confidence"
          "must be between 0 and 1"
          (require (is_positive c.slm_max_tokens) "slm_max_tokens" "must be positive" (
            require (is_positive c.slm_context_size) "slm_context_size" "must be positive"
              (loaded c)))))

  -- `MoonshineTinyKoConfig.__post_init__`
  unfoldable pub check_moonshine : MoonshineTinyKoConfig F → Loaded (MoonshineTinyKoConfig F)
  check_moonshine c = require (text_eq c.language (codes "ko")) "language" "must be ko" (
      require (text_eq c.model_arch (codes "tiny")) "model_arch" "must be tiny" (
        require (is_positive c.max_audio_ms) "max_audio_ms" "must be positive" (
          require (not (fl.le c.max_tokens_per_second fl.zero)) "max_tokens_per_second"
            "must be positive"
            (require (in_unit c.unknown_confidence) "unknown_confidence" "must be between 0 and 1"
              (check_slm c)))))

-- a text that is one of the texts
unfoldable pub is_one_of : Text → List Text → Bool
is_one_of t [] = false
is_one_of t (x ∷ xs) = let rest = is_one_of t xs in text_eq t x || rest

-- `_bool_from_env`, for a variable that is set
unfoldable pub to_bool : Unicode → String → Text → Loaded Bool
to_bool u name raw =
    let normalized = casefold u (rstrip u (lstrip u raw)) in
    if is_one_of normalized (codes "1" ∷ codes "true" ∷ codes "yes" ∷ codes "on" ∷ [])
    then loaded true
    else if is_one_of normalized (codes "0" ∷ codes "false" ∷ codes "no" ∷ codes "off" ∷ [])
    then loaded false
    else value_error name "must be a boolean"

-- `_int_from_env`, for a variable that is set
unfoldable pub natural : String → Option ℤ → Loaded ℤ
natural name none = value_error name "must be an integer"
natural name (some value) =
    if is_negative value then value_error name "must be non-negative" else loaded value

unfoldable pub float_of : {F : Type 0} → String → Option F → Loaded F
float_of name none = value_error name "must be a float"
float_of name (some value) = loaded value

-- `os.getenv(name, default)` and `os.getenv(name) or None`
unfoldable pub get_or_default : Option Text → Text → Text
get_or_default none default = default
get_or_default (some raw) default = raw

unfoldable pub or_none : Option Text → Option Text
or_none none = none
or_none (some raw) = if length raw == 0 then none else some raw

module _ {F : Type 0} (fl : FloatType F) (u : Unicode) (env : Environment F) where
  unfoldable pub float_from_env : String → F → Loaded F
  float_from_env name default = elim (env.getenv name) [
    | none ↦ loaded default
    | some raw ↦ float_of name (env.to_float raw)
  ]

  unfoldable pub int_from_env : String → ℤ → Loaded ℤ
  int_from_env name default = elim (env.getenv name) [
    | none ↦ loaded default
    | some raw ↦ natural name (env.to_int raw)
  ]

  unfoldable pub bool_from_env : String → Bool → Loaded Bool
  bool_from_env name default = elim (env.getenv name) [
    | none ↦ loaded default
    | some raw ↦ to_bool u name raw
  ]

  -- `MockBrainConfig.from_env()`
  unfoldable pub mock_from_env : Loaded (MockBrainConfig F)
  mock_from_env = float_from_env "MOCK_BRAIN_CONFIDENCE" fl.confidence >>= λ confidence.
      int_from_env "MOCK_BRAIN_DELAY_MS" (pos 0) >>= λ delay_ms. check_mock fl (record {
        intent = get_or_default (env.getenv "MOCK_BRAIN_INTENT") (codes "roll_right");
        confidence = confidence;
        delay_ms = delay_ms;
        server_version = codes "0.1.0";
      })

  -- `MoonshineTinyKoConfig.from_env()`
  unfoldable pub moonshine_from_env : Loaded (MoonshineTinyKoConfig F)
  moonshine_from_env = int_from_env "MOONSHINE_MAX_AUDIO_MS" (pos 5000) >>= λ max_audio_ms.
      float_from_env "MOONSHINE_MAX_TOKENS_PER_SECOND" fl.max_tokens_per_second >>= λ tokens.
      float_from_env "MOONSHINE_UNKNOWN_CONFIDENCE" fl.unknown_confidence >>= λ unknown_confidence.
      bool_from_env "BRAIN_SLM_ENABLED" true >>= λ slm_enabled.
      int_from_env "BRAIN_SLM_TIMEOUT_MS" (pos 5000) >>= λ slm_timeout_ms.
      float_from_env "BRAIN_SLM_CONFIDENCE" fl.slm_confidence >>= λ slm_confidence.
      float_from_env "BRAIN_SLM_MIN_CATALOG_CONFIDENCE" fl.slm_min_catalog_confidence
      >>= λ slm_min_catalog_confidence.
          int_from_env "BRAIN_SLM_MAX_TOKENS" (pos 16) >>= λ slm_max_tokens.
          int_from_env "BRAIN_SLM_CONTEXT_SIZE" (pos 2048) >>= λ slm_context_size.
          check_moonshine fl (record {
            language = get_or_default (env.getenv "MOONSHINE_LANGUAGE") (codes "ko");
            model_arch = get_or_default (env.getenv "MOONSHINE_MODEL_ARCH") (codes "tiny");
            model_dir = or_none (env.getenv "MOONSHINE_MODEL_DIR");
            intent_catalog_path = or_none (env.getenv "INTENT_CATALOG_PATH");
            max_audio_ms = max_audio_ms;
            max_tokens_per_second = tokens;
            unknown_confidence = unknown_confidence;
            slm_enabled = slm_enabled;
            slm_llama_cli = get_or_default (env.getenv "LLAMA_CLI") env.default_llama_cli;
            slm_model_path = get_or_default (env.getenv "QWEN35_MODEL_PATH") env.default_model_path;
            slm_timeout_ms = slm_timeout_ms;
            slm_confidence = slm_confidence;
            slm_min_catalog_confidence = slm_min_catalog_confidence;
            slm_max_tokens = slm_max_tokens;
            slm_context_size = slm_context_size;
            server_version = codes "0.1.0";
          })

  unfoldable pub load_config_from_env : Loaded (RuntimeConfig F)
  load_config_from_env =
      let pipeline = get_or_default (env.getenv "BRAIN_PIPELINE") (codes "mock") in
      if text_eq pipeline (codes "mock")
      then (mock_from_env >>= λ c. loaded (RuntimeConfig.mock c))
      else if text_eq pipeline (codes "moonshine_tiny_ko")
      then (moonshine_from_env >>= λ c. loaded (RuntimeConfig.moonshine_tiny_ko c))
      else value_error "BRAIN_PIPELINE" "must be one of: mock, moonshine_tiny_ko"
