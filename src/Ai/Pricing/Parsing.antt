-- ===== src/Ai/Pricing/Parsing.antt =====
-- What the configuration parser accepts.
use mathlib.Core.Path.{subst}
use repo_mentor.Text.{codes}
use repo_mentor.Ai.Pricing.Bounds.{HasRates}
use repo_mentor.Prelude.{
  Bool-cases, List, Option, String, [], arith, if◌then◌else◌, inl, inr, none, ok, refl, some, sym,
  true, ℕ, ◌≡◌, ◌≤◌,
}
use repo_mentor.Ai.Pricing.{
  output_variable, cached_input_variable, input_variable, unset_variables, version_variable,
  all_unset, parse_variables, parse_pricing_config, PricingEnvironment, AiPricingConfig, Variable,
  max_rate, parse_version, parse_rate, assemble, matches_version,
}

parse_version-some :
    (name : Variable) (raw : Option String) (invalid : List Variable) (v : String)
    → (parse_version name raw invalid).0 ≡ some v
    → (raw ≡ some v) × (matches_version (codes v) ≡ true)
unfolding parse_version
parse_version-some name none invalid v h = cc
parse_version-some name (some r) invalid v h = ground arith

assemble-ok :
    (v : Option String) (i c o : Option ℕ) (invalid : List Variable) {r : Option AiPricingConfig}
    → assemble v i c o invalid ≡ ok r
    → (config : AiPricingConfig) × (r ≡ some config)
      × (v ≡ some config.version)
      × (i ≡ some config.input_rate)
      × (c ≡ some config.cached_input_rate)
      × (o ≡ some config.output_rate)
      × (invalid ≡ [])
unfolding assemble
assemble-ok (some v) (some i) (some c) (some o) [] h = (
  record { version = v; input_rate = i; cached_input_rate = c; output_rate = o },
  ground arith,
  refl,
  refl,
  refl,
  refl,
  refl,
)
assemble-ok _ _ _ _ _ h = cc

unset_lem :
    (env : PricingEnvironment)
    → all_unset env ≡ true
    → (env.version ≡ none)
      × (env.input_rate ≡ none)
      × (env.cached_input_rate ≡ none)
      × (env.output_rate ≡ none)
unfolding all_unset
unset_lem env h = ground arith

-- What a parse may return: a configuration whose version is the given one and well formed, and whose
-- rates are within the bound; or none, if all four variables are unset.
abbrev pub Accepted : PricingEnvironment → Option AiPricingConfig → Type 0
Accepted env none =
    (env.version ≡ none)
    × (env.input_rate ≡ none)
    × (env.cached_input_rate ≡ none)
    × (env.output_rate ≡ none)
Accepted env (some config) =
    (env.version ≡ some config.version)
    × (matches_version (codes config.version) ≡ true)
    × HasRates config

module _ (trim : List ℕ → List ℕ) where
  parse_rate-le :
      (name : Variable) (raw : Option String) (invalid : List Variable) (v : ℕ)
      → (parse_rate trim name raw invalid).0 ≡ some v
      → v ≤ max_rate
  unfolding parse_rate
  parse_rate-le name none invalid v h = cc
  parse_rate-le name (some r) invalid v h = ground arith

  parse_variables_sound :
      (env : PricingEnvironment) (r : Option AiPricingConfig)
      → parse_variables trim env ≡ ok r
      → Accepted env r
  unfolding parse_variables
  parse_variables_sound env r h =
      let version = parse_version version_variable env.version (unset_variables env) in
      let input = parse_rate trim input_variable env.input_rate version.1 in
      let cached = parse_rate trim cached_input_variable env.cached_input_rate input.1 in
      let output = parse_rate trim output_variable env.output_rate cached.1 in
      let (config, e, ev, ei, ec, eo, _) =
        assemble-ok version.0 input.0 cached.0 output.0 output.1 h in
      let (given, formed) =
        parse_version-some version_variable env.version (unset_variables env) config.version ev in
      subst (Accepted env) (sym e) (
        given,
        formed,
        record {
          input_rate = parse_rate-le input_variable env.input_rate version.1 config.input_rate ei;
          cached_input_rate =
              parse_rate-le cached_input_variable env.cached_input_rate input.1
                config.cached_input_rate ec;
          output_rate =
              parse_rate-le output_variable env.output_rate cached.1 config.output_rate eo;
        },
      )

  -- Whatever `trim` does, a configuration that the parser accepts has the given version, which is well formed,
  -- and rates of at most the bound; and the parser returns no configuration only if all four variables are
  -- unset.
  pub parse_pricing_config_sound :
      (env : PricingEnvironment) (r : Option AiPricingConfig)
      → parse_pricing_config trim env ≡ ok r
      → Accepted env r
  unfolding parse_pricing_config
  parse_pricing_config_sound env r h = elim (Bool-cases (all_unset env)) [
    | inl unset ↦
        let same : none ≡ r = cc (rw (unset, if◌then◌else◌) at h) in
        subst (Accepted env) same (unset_lem env unset)
    | inr given ↦ parse_variables_sound env r (rw given at h)
  ]
