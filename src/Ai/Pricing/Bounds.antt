-- ===== src/Ai/Pricing/Bounds.antt =====
-- The cost estimate against its bound.
use repo_mentor.Prelude.{Option, arith, none, ok, refl, some, ℕ, ◌*◌, ◌+◌, ◌-◌, ◌/◌, ◌<◌, ◌≡◌, ◌≤◌}
use repo_mentor.Ai.Pricing.{
  rate_divisor, pos, cost_numerator, uncached_tokens, AiPricingUsage, estimate_cost_micros,
  AiPricingConfig, max_rate,
}

-- The rates that the configuration parser lets through.
pub record HasRates (config : AiPricingConfig) : Type 0 where
  pub input_rate : config.input_rate ≤ max_rate
  pub cached_input_rate : config.cached_input_rate ≤ max_rate
  pub output_rate : config.output_rate ≤ max_rate

-- A count of tokens that the persistence schema admits.
abbrev pub max_tokens : ℕ
max_tokens = 10000000

mul_mono : (a b c d : ℕ) → a ≤ c → b ≤ d → a * b ≤ c * d
mul_mono a b c d h k = grind arith

-- Input tokens are charged once: at the full rate or at the cached one.
numerator_bound :
    (u i : ℕ) (c r s o t : ℕ)
    → u + c ≤ max_tokens
    → o ≤ max_tokens
    → r ≤ max_rate
    → s ≤ max_rate
    → t ≤ max_rate
    → u * r + c * s + o * t ≤ 20000000000000000
numerator_bound u i c r s o t h k p q w = omega (
  arith,
  mul_mono u r u max_rate (omega arith) p,
  mul_mono c s c max_rate (omega arith) q,
  mul_mono o t o max_rate (omega arith) w,
)

-- A charge for cached tokens that are among the input tokens.
uncached_lem : (i c : ℕ) → c ≤ i → uncached_tokens i c + c ≡ i
unfolding uncached_tokens
uncached_lem i c h = ground arith

uncached_is_rest : (i c : ℕ) → c ≤ i → uncached_tokens i c ≡ i - c
unfolding uncached_tokens
uncached_is_rest i c h = ground arith

estimate_of_numerator :
    (usage : AiPricingUsage) (config : AiPricingConfig)
    → cost_numerator usage config ≤ 20000000000000000
    → (cost : ℕ) × (estimate_cost_micros usage config ≡ ok cost)
      × (cost ≤ 20000000000)
      × (cost * rate_divisor ≤ cost_numerator usage config)
      × (cost_numerator usage config < (cost + 1) * rate_divisor)
unfolding estimate_cost_micros
estimate_of_numerator usage config h =
    let n = cost_numerator usage config in
    (n / rate_divisor, ground arith, omega arith, omega arith, omega arith)

abbrev pub cached_count : Option ℕ → ℕ
cached_count none = 0
cached_count (some c) = c

abbrev pub as_usage : ℕ → ℕ → Option ℕ → AiPricingUsage
as_usage input output none = record {
  input_tokens = pos input;
  output_tokens = pos output;
  cached_input_tokens = none;
}
as_usage input output (some c) = record {
  input_tokens = pos input;
  output_tokens = pos output;
  cached_input_tokens = some (pos c);
}

numerator_within :
    (input output : ℕ) (cached : Option ℕ) (config : AiPricingConfig)
    → HasRates config
    → input ≤ max_tokens
    → output ≤ max_tokens
    → cached_count cached ≤ input
    → cost_numerator (as_usage input output cached) config ≤ 20000000000000000
unfolding cost_numerator
numerator_within i o none config h p q r =
    numerator_bound (uncached_tokens i 0) 0 0 config.input_rate config.cached_input_rate o
      config.output_rate (omega (arith, uncached_lem i 0 r)) q h.input_rate h.cached_input_rate
      h.output_rate
numerator_within i o (some c) config h p q r =
    numerator_bound (uncached_tokens i c) 0 c config.input_rate config.cached_input_rate o
      config.output_rate (omega (arith, uncached_lem i c r)) q h.input_rate h.cached_input_rate
      h.output_rate

numerator_lem :
    (input output : ℕ) (cached : Option ℕ) (config : AiPricingConfig)
    → cached_count cached ≤ input
    → cost_numerator (as_usage input output cached) config
      ≡ (input - cached_count cached) * config.input_rate
        + cached_count cached * config.cached_input_rate
        + output * config.output_rate
unfolding cost_numerator
numerator_lem i o none config r = rw (uncached_is_rest i 0 r) refl
numerator_lem i o (some c) config r = rw (uncached_is_rest i c r) refl

-- For token counts of at most ten million, cached ones among the input ones, and rates of at most the
-- parser's bound, the estimate does not throw: it is at most 20000000000, and it is the sum of the uncached
-- input tokens at the input rate, the cached ones at the cached rate and the output tokens at the output
-- rate, divided by a million and rounded down.
pub estimate_cost_micros_within :
    (input output : ℕ) (cached : Option ℕ) (config : AiPricingConfig)
    → HasRates config
    → input ≤ max_tokens
    → output ≤ max_tokens
    → cached_count cached ≤ input
    → let charge =
        (input - cached_count cached) * config.input_rate
        + cached_count cached * config.cached_input_rate
        + output * config.output_rate in
      (cost : ℕ) × (estimate_cost_micros (as_usage input output cached) config ≡ ok cost)
      × (cost ≤ 20000000000)
      × (cost * 1000000 ≤ charge)
      × (charge < (cost + 1) * 1000000)
estimate_cost_micros_within i o cached config h p q r =
    let (cost, estimated, small, below, above) =
      estimate_of_numerator (as_usage i o cached) config
        (numerator_within i o cached config h p q r) in
    let e = numerator_lem i o cached config r in
    (cost, estimated, small, rw e at below, rw e at above)
