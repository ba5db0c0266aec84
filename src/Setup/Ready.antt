-- ===== src/Setup/Ready.antt =====
-- brain/ws_server.py: what an app that has started is made of
use nubjuk_brain.Prelude.{arith, ◌≡◌, refl, subst, ℕ, Bool, true, false, Option, none, some, Text}
use nubjuk_brain.Errors.{Result, ok, raise}
use nubjuk_brain.Pipeline.{Float}
use nubjuk_brain.Pipeline.Mock.{new_mock}
use nubjuk_brain.Pipeline.Moonshine.{Parts, Moonshine, new_moonshine}
use nubjuk_brain.Pipeline.Moonshine.Transcriber.{Transcriber}
use nubjuk_brain.Pipeline.Qwen.Process.{QwenSlmIntentResolver, new_resolver}
use nubjuk_brain.Pipeline.Qwen.Paths.{Located, with_paths, locate, Disk}
use nubjuk_brain.Intent.Recipe.{IntentCatalogData}
use nubjuk_brain.Intent.Catalog.{IntentCatalog}
use nubjuk_brain.Intent.Loading.{Loading}
use nubjuk_brain.Intent.Loading.Built.{IsBuilt, load_intent_catalog-IsBuilt}
use nubjuk_brain.Config
use nubjuk_brain.Config.{MoonshineTinyKoConfig, RuntimeConfig, Loaded, load_config_from_env}
use nubjuk_brain.Config.Accepted.{IsMock, IsMoonshine, IsAccepted, load_config_from_env-IsAccepted}
use nubjuk_brain.Server.Many.{App, new_app}
use nubjuk_brain.Setup.{
  Machine, Built, built, bad_config, no_catalog, raised, ◌>>=◌, of_result, of_loaded, of_loading,
  load_transcriber, new_resolver_of, Running, parts_of, build_moonshine, start_app, create_app,
}

-- nothing, or a resolver that holds no process
abbrev pub IsNewResolver : Option QwenSlmIntentResolver → Type 0
IsNewResolver none = Unit
IsNewResolver (some r) = r ≡ new_resolver

-- The parts of a moonshine pipeline that has started, and the app at its start.
pub record IsReady (m : Machine) (now : ℕ) (parts : Parts)
    (a : App (Moonshine QwenSlmIntentResolver)) : Type 0 where
  pub config : IsMoonshine m.float_type parts.config
  pub catalog : (d : IntentCatalogData) × IsBuilt m.unicode d parts.catalog
  pub transcriber :
      (t : Transcriber) × (load_transcriber m.moonshine_voice parts.config ≡ ok t)
      × (parts ≡ parts_of m parts.config t parts.catalog)
  pub app :
      (r : Option QwenSlmIntentResolver) × IsNewResolver r
      × (a ≡ new_app now (new_moonshine parts r))

module _ (m : Machine) (now : ℕ) where
  abbrev pub IsStarted : Running → Type 0
  IsStarted (Running.mock a) =
      (c : Config.MockBrainConfig Float) × IsMock m.float_type c × (a ≡ new_app now (new_mock c))
  IsStarted (Running.moonshine parts a) = IsReady m now parts a

  -- a value that has the property, if it is built
  abbrev Ensures : {A : Type 0} → (A → Type 0) → Built A → Type 0
  Ensures Q (built a) = Q a
  Ensures Q _ = Unit

  bind-Ensures :
      {A B : Type 0} (Q : B → Type 0) (b : Built A) (f : A → Built B)
      → ((a : A) → b ≡ built a → Ensures Q (f a))
      → Ensures Q (b >>= f)
  unfolding ◌>>=◌
  bind-Ensures Q (built a) f h = h a refl
  bind-Ensures Q (bad_config name text) f h = tt
  bind-Ensures Q (no_catalog l) f h = tt
  bind-Ensures Q (raised e) f h = tt

  of_result-ok : {A : Type 0} (r : Result A) (a : A) → of_result r ≡ built a → r ≡ ok a
  of_result-ok (ok x) a e = ground arith
  of_result-ok (raise x) a e = absurd (ground arith)

  of_loaded-loaded :
      {A : Type 0} (l : Loaded A) (a : A) → of_loaded l ≡ built a → l ≡ Config.loaded a
  of_loaded-loaded (Config.loaded x) a e = ground arith
  of_loaded-loaded (Config.value_error name text) a e = absurd (ground arith)

  of_loading-loaded :
      (l : Loading) (c : IntentCatalog) → of_loading l ≡ built c → l ≡ Loading.loaded c
  of_loading-loaded (Loading.loaded x) c e = ground arith
  of_loading-loaded (Loading.value_error text) c e = absurd (ground arith)
  of_loading-loaded Loading.json_error c e = absurd (ground arith)

  located_new :
      (r : Result Text) (s : Result Text)
      → Ensures IsNewResolver
          (of_result (with_paths r s) >>= λ (l : Located). built (some l.resolver))
  unfolding ◌>>=◌
  located_new (raise e) s = tt
  located_new (ok cli) (raise e) = tt
  located_new (ok cli) (ok model) = refl

  resolver_new :
      (disk : Disk) (enabled : Bool) (cli model : Text)
      → Ensures IsNewResolver (new_resolver_of disk enabled cli model)
  unfolding new_resolver_of locate
  resolver_new disk false cli model = tt
  resolver_new disk true cli model = located_new _ _

  -- what a value that was built has
  from_Ensures :
      {A : Type 0} (Q : A → Type 0) (b : Built A) (a : A) → b ≡ built a → Ensures Q b → Q a
  from_Ensures Q b a e h = subst (Ensures Q) e h

  moonshine-Ensures :
      (config : MoonshineTinyKoConfig Float)
      → IsMoonshine m.float_type config
      → Ensures
          (λ (b : Parts × Moonshine QwenSlmIntentResolver). IsReady m now b.0 (new_app now b.1))
          (build_moonshine m config)
  unfolding build_moonshine
  moonshine-Ensures config h = bind-Ensures _ _ _ λ t e. bind-Ensures _ _ _ λ catalog k.
      bind-Ensures _ _ _ λ resolver n. record {
        config = h;
        catalog =
            load_intent_catalog-IsBuilt m.unicode m.source config.intent_catalog_path catalog
              (of_loading-loaded _ catalog k);
        transcriber = (t, of_result-ok _ t e, refl);
        app = (
          resolver,
          from_Ensures IsNewResolver _ resolver n
              (resolver_new m.disk config.slm_enabled config.slm_llama_cli config.slm_model_path),
          refl,
        );
      }

  start_app-Ensures :
      (config : RuntimeConfig Float)
      → IsAccepted m.float_type config
      → Ensures IsStarted (start_app m now config)
  unfolding start_app
  start_app-Ensures (RuntimeConfig.mock c) h = (c, h, refl)
  start_app-Ensures (RuntimeConfig.moonshine_tiny_ko c) h =
      bind-Ensures IsStarted (build_moonshine m c) _ λ b e.
        from_Ensures
          (λ (b : Parts × Moonshine QwenSlmIntentResolver). IsReady m now b.0 (new_app now b.1)) _ b
          e (moonshine-Ensures c h)

  -- Whatever the environment, the files and the libraries are: an app that starts has a configuration
  -- whose fields passed their checks. With the mock pipeline it is the new app of it. With the moonshine
  -- pipeline the catalog is built of data with unique ids and unique, non-empty compact aliases, the
  -- transcriber is the one that the library opened for the configuration, a resolver holds no process,
  -- and the app is the new one, without connections, of the new pipeline.
  pub create_app-IsStarted : (r : Running) → create_app m now ≡ built r → IsStarted r
  unfolding create_app
  create_app-IsStarted r e = from_Ensures IsStarted _ r e (
      bind-Ensures IsStarted (of_loaded (load_config_from_env m.float_type m.unicode m.environment))
        _
        λ config k. start_app-Ensures config (
          load_config_from_env-IsAccepted m.float_type m.unicode m.environment config
            (of_loaded-loaded _ config k)))
