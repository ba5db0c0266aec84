-- ===== src/Setup.antt =====
-- brain/ws_server.py and the constructors of brain/pipeline/moonshine_tiny_ko.py: `create_app`, from the
-- environment to the app whose connections are served. The libraries and the files are parameters.
pub mod Ready
pub mod Mocked
pub mod Recognised
use nubjuk_brain.Prelude.{ℕ, String, Bool, true, false, Option, none, some, [], ◌∷◌, Text}
use nubjuk_brain.Errors.{Result, ok, raise, Exception, runtime}
use nubjuk_brain.Pipeline.{Float}
use nubjuk_brain.Pipeline.Mock.{MockPipeline, new_mock}
use nubjuk_brain.Pipeline.Moonshine.{Parts, Moonshine, new_moonshine}
use nubjuk_brain.Pipeline.Moonshine.Transcriber.{Transcriber, transcribe}
use nubjuk_brain.Pipeline.Qwen.Process.{Llama, QwenSlmIntentResolver}
use nubjuk_brain.Pipeline.Qwen.Paths.{Disk, Located, locate}
use nubjuk_brain.Intent.Normalize.{Unicode}
use nubjuk_brain.Intent.Phonetic.{Floats}
use nubjuk_brain.Intent.Catalog.{IntentCatalog}
use nubjuk_brain.Intent.Loading
use nubjuk_brain.Intent.Loading.{Source, Loading, load_intent_catalog}
use nubjuk_brain.Config
use nubjuk_brain.Config.{
  FloatType, Environment, MoonshineTinyKoConfig, RuntimeConfig, Loaded, load_config_from_env,
}
use nubjuk_brain.Server.Many.{App, new_app}

-- The library `moonshine_voice`: `get_model_for_language`, which tells the path of a model and whether
-- it is a tiny one, and `Transcriber`, of the path of a tiny model and `max_tokens_per_second`.
pub record MoonshineVoice : Type 0 where
  pub get_model_for_language : Text → Result (Text × Bool)
  pub new_transcriber : Text → Float → Result Transcriber

-- What the program finds on its machine; `moonshine_voice` is none where its import fails.
pub record Machine : Type 0 where
  pub float_type : FloatType Float
  pub unicode : Unicode
  pub floats : Floats
  pub environment : Environment Float
  pub source : Source
  pub disk : Disk
  pub moonshine_voice : Option MoonshineVoice
  pub llama : Llama

-- What is built, or what is raised: a `ValueError` about the configuration or of the catalog, or an
-- exception of the transcriber or the resolver.
pub data Built (A : Type 0) : Type 0 where
  built : A → Built A
  bad_config : String → String → Built A
  no_catalog : Loading → Built A
  raised : Exception → Built A

infixl 5 ◌>>=◌
unfoldable pub ◌>>=◌ : {A B : Type 0} → Built A → (A → Built B) → Built B
built a >>= f = f a
bad_config name text >>= f = bad_config name text
no_catalog l >>= f = no_catalog l
raised e >>= f = raised e

abbrev pub of_result : {A : Type 0} → Result A → Built A
of_result (ok a) = built a
of_result (raise e) = raised e

abbrev pub of_loaded : {A : Type 0} → Loaded A → Built A
of_loaded (Config.loaded a) = built a
of_loaded (Config.value_error name text) = bad_config name text

abbrev pub of_loading : Loading → Built IntentCatalog
of_loading (Loading.loaded c) = built c
of_loading (Loading.value_error text) = no_catalog (Loading.value_error text)
of_loading Loading.json_error = no_catalog Loading.json_error

-- The path of the model, and whether it is tiny, as it is when a directory is given.
unfoldable pub find_model : MoonshineVoice → Text → Option Text → Result (Text × Bool)
find_model voice language (some (c ∷ dir)) = ok (c ∷ dir, true)
find_model voice language _ = voice.get_model_for_language language

unfoldable pub open_model : MoonshineVoice → Float → Result (Text × Bool) → Result Transcriber
open_model voice tokens (raise e) = raise e
open_model voice tokens (ok (path, false)) = raise (runtime "expected Moonshine tiny-ko model arch")
open_model voice tokens (ok (path, true)) = voice.new_transcriber path tokens

-- `MoonshineTinyKoTranscriber(config)`
unfoldable pub load_transcriber :
    Option MoonshineVoice → MoonshineTinyKoConfig Float → Result Transcriber
load_transcriber none config = raise (runtime "moonshine-voice is not installed")
load_transcriber (some voice) config =
    open_model voice config.max_tokens_per_second
      (find_model voice config.language config.model_dir)

-- the resolver that the constructor makes, if the configuration enables it
unfoldable pub new_resolver_of : Disk → Bool → Text → Text → Built (Option QwenSlmIntentResolver)
new_resolver_of disk false llama_cli model_path = built none
new_resolver_of disk true llama_cli model_path =
    of_result (locate disk llama_cli model_path) >>= λ (l : Located). built (some l.resolver)

-- The pipeline that is served: its own state is in the app.
pub data Running : Type 0 where
  mock : App MockPipeline → Running
  moonshine : Parts → App (Moonshine QwenSlmIntentResolver) → Running

module _ (m : Machine) where
  abbrev pub parts_of : MoonshineTinyKoConfig Float → Transcriber → IntentCatalog → Parts
  parts_of config t catalog = record {
    config = config;
    catalog = catalog;
    unicode = m.unicode;
    floats = m.floats;
    transcribe = transcribe m.unicode t;
  }

  -- `MoonshineTinyKoRulesPipeline(config)`, with what it is made of
  unfoldable pub build_moonshine :
      MoonshineTinyKoConfig Float → Built (Parts × Moonshine QwenSlmIntentResolver)
  build_moonshine config = of_result (load_transcriber m.moonshine_voice config) >>= λ t.
      of_loading (load_intent_catalog m.unicode m.source config.intent_catalog_path) >>= λ catalog.
      new_resolver_of m.disk config.slm_enabled config.slm_llama_cli config.slm_model_path
      >>= λ resolver.
          built (parts_of config t catalog, new_moonshine (parts_of config t catalog) resolver)

  -- `_build_pipeline` and `SessionManager(pipeline)`
  unfoldable pub start_app : ℕ → RuntimeConfig Float → Built Running
  start_app now (RuntimeConfig.mock config) = built (Running.mock (new_app now (new_mock config)))
  start_app now (RuntimeConfig.moonshine_tiny_ko config) =
      build_moonshine config >>= λ (b : Parts × Moonshine QwenSlmIntentResolver).
      built (Running.moonshine b.0 (new_app now b.1))

  -- `create_app()`, and the start of its `lifespan`
  unfoldable pub create_app : ℕ → Built Running
  create_app now =
      of_loaded (load_config_from_env m.float_type m.unicode m.environment) >>= start_app now
