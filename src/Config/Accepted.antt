-- ===== src/Config/Accepted.antt =====
-- brain/config.py: which configurations are accepted
use nubjuk_brain.Prelude.{
  ◌≡◌, refl, subst, ◌↔◌, String, Bool, true, false, not, codes, text_eq, text_eq_iff, arith,
  if-intro, if◌then◌else◌,
}
use nubjuk_brain.Intent.Normalize.{Unicode}
use nubjuk_brain.Config.{
  FloatType, Environment, MockBrainConfig, MoonshineTinyKoConfig, RuntimeConfig, Loaded, loaded,
  value_error, ◌>>=◌, is_negative, is_positive, require, get_or_default, in_unit, check_mock,
  check_slm, check_moonshine, mock_from_env, moonshine_from_env, load_config_from_env,
}

module _ {F : Type 0} (fl : FloatType F) where
  pub record IsUnit (x : F) : Type 0 where
    pub low : fl.le fl.zero x ≡ true
    pub high : fl.le x fl.one ≡ true

  pub record IsMock (c : MockBrainConfig F) : Type 0 where
    pub confidence : IsUnit c.confidence
    pub delay_ms : is_negative c.delay_ms ≡ false

  -- A rate that is not a number is not `<= 0`, so it is among the accepted ones.
  pub record IsMoonshine (c : MoonshineTinyKoConfig F) : Type 0 where
    pub language : c.language ≡ codes "ko"
    pub model_arch : c.model_arch ≡ codes "tiny"
    pub max_audio_ms : is_positive c.max_audio_ms ≡ true
    pub max_tokens_per_second : fl.le c.max_tokens_per_second fl.zero ≡ false
    pub unknown_confidence : IsUnit c.unknown_confidence
    pub slm_timeout_ms : is_positive c.slm_timeout_ms ≡ true
    pub slm_confidence : IsUnit c.slm_confidence
    pub slm_min_catalog_confidence : IsUnit c.slm_min_catalog_confidence
    pub slm_max_tokens : is_positive c.slm_max_tokens ≡ true
    pub slm_context_size : is_positive c.slm_context_size ≡ true

  abbrev pub IsAccepted : RuntimeConfig F → Type 0
  IsAccepted (RuntimeConfig.mock c) = IsMock c
  IsAccepted (RuntimeConfig.moonshine_tiny_ko c) = IsMoonshine c

  -- a result that has the property, if it is loaded
  abbrev Ensures : {A : Type 0} → (A → Type 0) → Loaded A → Type 0
  Ensures Q (loaded a) = Q a
  Ensures Q (value_error name text) = Unit

  require-Ensures :
      {A : Type 0} (Q : A → Type 0) (b : Bool) (name text : String) (next : Loaded A)
      → (b ≡ true → Ensures Q next)
      → Ensures Q (require b name text next)
  unfolding require
  require-Ensures Q true name text next h = h refl
  require-Ensures Q false name text next h = tt

  bind-Ensures :
      {A B : Type 0} (Q : B → Type 0) (m : Loaded A) (f : A → Loaded B)
      → ((a : A) → Ensures Q (f a))
      → Ensures Q (m >>= f)
  unfolding ◌>>=◌
  bind-Ensures Q (loaded a) f h = h a
  bind-Ensures Q (value_error name text) f h = tt

  in_unit-IsUnit : (x : F) → in_unit fl x ≡ true → IsUnit x
  unfolding in_unit
  in_unit-IsUnit x h = record { low = ground arith; high = ground arith }

  check_mock-IsMock : (c : MockBrainConfig F) → Ensures IsMock (check_mock fl c)
  unfolding check_mock
  check_mock-IsMock c = require-Ensures IsMock (in_unit fl c.confidence) _ _ _ (λ a.
      require-Ensures IsMock (not (is_negative c.delay_ms)) _ _ _
        (λ b. record { confidence = in_unit-IsUnit c.confidence a; delay_ms = ground arith }))

  check_moonshine-IsMoonshine :
      (c : MoonshineTinyKoConfig F) → Ensures IsMoonshine (check_moonshine fl c)
  unfolding check_moonshine check_slm
  check_moonshine-IsMoonshine c =
      require-Ensures IsMoonshine (text_eq c.language (codes "ko")) _ _ _ (λ a₁.
        require-Ensures IsMoonshine (text_eq c.model_arch (codes "tiny")) _ _ _ (λ a₂.
          require-Ensures IsMoonshine (is_positive c.max_audio_ms) _ _ _ (λ a₃.
            require-Ensures IsMoonshine (not (fl.le c.max_tokens_per_second fl.zero)) _ _ _ (λ a₄.
              require-Ensures IsMoonshine (in_unit fl c.unknown_confidence) _ _ _ (λ a₅.
                require-Ensures IsMoonshine (is_positive c.slm_timeout_ms) _ _ _ (λ a₆.
                  require-Ensures IsMoonshine (in_unit fl c.slm_confidence) _ _ _ (λ a₇.
                    require-Ensures IsMoonshine (in_unit fl c.slm_min_catalog_confidence) _ _ _
                      (λ a₈. require-Ensures IsMoonshine (is_positive c.slm_max_tokens) _ _ _ (λ a₉.
                        require-Ensures IsMoonshine (is_positive c.slm_context_size) _ _ _ (λ a₀.
                          record {
                            language = (text_eq_iff c.language (codes "ko")).0 a₁;
                            model_arch = (text_eq_iff c.model_arch (codes "tiny")).0 a₂;
                            max_audio_ms = a₃;
                            max_tokens_per_second = ground arith;
                            unknown_confidence = in_unit-IsUnit c.unknown_confidence a₅;
                            slm_timeout_ms = a₆;
                            slm_confidence = in_unit-IsUnit c.slm_confidence a₇;
                            slm_min_catalog_confidence =
                                in_unit-IsUnit c.slm_min_catalog_confidence a₈;
                            slm_max_tokens = a₉;
                            slm_context_size = a₀;
                          }))))))))))

  check_slm_accepts : (c : MoonshineTinyKoConfig F) → IsMoonshine c → check_slm fl c ≡ loaded c
  unfolding check_slm require in_unit
  check_slm_accepts c h = ground arith

  check_moonshine_accepts :
      (c : MoonshineTinyKoConfig F) → IsMoonshine c → check_moonshine fl c ≡ loaded c
  unfolding check_moonshine require in_unit
  check_moonshine_accepts c h = ground (
    arith,
    text_eq_iff c.language (codes "ko"),
    text_eq_iff c.model_arch (codes "tiny"),
    check_slm_accepts c,
  )

  -- The checks of a moonshine configuration let it pass exactly if the language is "ko", the architecture
  -- "tiny", the counts and times are positive, the confidences lie between 0 and 1, and the rate of
  -- tokens is not below or at 0.
  pub check_moonshine_iff :
      (c : MoonshineTinyKoConfig F) → (check_moonshine fl c ≡ loaded c) ↔ IsMoonshine c
  check_moonshine_iff c = (
    λ e. subst (Ensures IsMoonshine) e (check_moonshine-IsMoonshine c),
    check_moonshine_accepts c,
  )

  module _ (u : Unicode) (env : Environment F) where
    mock_from_env-IsMock : Ensures IsMock (mock_from_env fl u env)
    unfolding mock_from_env
    mock_from_env-IsMock =
        bind-Ensures IsMock _ _ (λ x. bind-Ensures IsMock _ _ (λ y. check_mock-IsMock _))

    moonshine_from_env-IsMoonshine : Ensures IsMoonshine (moonshine_from_env fl u env)
    unfolding moonshine_from_env
    moonshine_from_env-IsMoonshine = bind-Ensures IsMoonshine _ _ (λ a.
        bind-Ensures IsMoonshine _ _ (λ b. bind-Ensures IsMoonshine _ _ (λ c.
          bind-Ensures IsMoonshine _ _ (λ d. bind-Ensures IsMoonshine _ _ (λ e.
            bind-Ensures IsMoonshine _ _ (λ f. bind-Ensures IsMoonshine _ _ (λ g.
              bind-Ensures IsMoonshine _ _
                (λ h. bind-Ensures IsMoonshine _ _ (λ i. check_moonshine-IsMoonshine _)))))))))

    wrap-Ensures :
        {A : Type 0} (Q : A → Type 0) (wrap : A → RuntimeConfig F) (m : Loaded A)
        → ((a : A) → Q a → IsAccepted (wrap a))
        → Ensures Q m
        → Ensures IsAccepted (m >>= λ a. loaded (wrap a))
    unfolding ◌>>=◌
    wrap-Ensures Q wrap (loaded a) f h = f a h
    wrap-Ensures Q wrap (value_error name text) f h = tt

    load_config_from_env-Ensures : Ensures IsAccepted (load_config_from_env fl u env)
    unfolding load_config_from_env
    load_config_from_env-Ensures =
        let pipeline = get_or_default (env.getenv "BRAIN_PIPELINE") (codes "mock") in
        let moonshine : Loaded (RuntimeConfig F) =
          moonshine_from_env fl u env >>= λ c. loaded (RuntimeConfig.moonshine_tiny_ko c) in
        let unknown : Loaded (RuntimeConfig F) =
          value_error "BRAIN_PIPELINE" "must be one of: mock, moonshine_tiny_ko" in
        if-intro (Ensures IsAccepted) (text_eq pipeline (codes "mock"))
          {x = mock_from_env fl u env >>= λ c. loaded (RuntimeConfig.mock c)}
          {y = if text_eq pipeline (codes "moonshine_tiny_ko") then moonshine else unknown}
          (λ _. wrap-Ensures IsMock RuntimeConfig.mock _ (λ a h. h) mock_from_env-IsMock)
          (λ _.
            if-intro (Ensures IsAccepted) (text_eq pipeline (codes "moonshine_tiny_ko"))
              {x = moonshine} {y = unknown}
              (λ _.
                wrap-Ensures IsMoonshine RuntimeConfig.moonshine_tiny_ko _ (λ a h. h)
                  moonshine_from_env-IsMoonshine)
              (λ _. tt))

    -- A configuration that is loaded from the environment, whatever is set there, has all its fields in
    -- their ranges, where the range of `max_tokens_per_second` is what the check makes of it: not at most
    -- zero, which a NaN is not either.
    pub load_config_from_env-IsAccepted :
        (c : RuntimeConfig F) → load_config_from_env fl u env ≡ loaded c → IsAccepted c
    load_config_from_env-IsAccepted c e = subst (Ensures IsAccepted) e load_config_from_env-Ensures
