-- ===== src/Ai/Pricing/Tests.antt =====
-- One price list, and the theorems at it.
use repo_mentor.Prelude.{arith, ok, refl, some, ℕ, ◌*◌, ◌+◌, ◌<◌, ◌≡◌, ◌≤◌}
use repo_mentor.Text.{is_digit, is_alphanumeric, all_codes}
use repo_mentor.Ai.Pricing.{
  AiPricingConfig, PricingEnvironment, estimate_cost_micros, matches_version, is_version_char,
  digits_value, add_invalid, parse_version, invalid_unset, all_unset, unset_variables, assemble,
  parse_rate, parse_variables, parse_pricing_config,
}
use repo_mentor.Ai.Pricing.Bounds.{HasRates, as_usage, estimate_cost_micros_within}
use repo_mentor.Ai.Pricing.Parsing.{parse_pricing_config_sound, Accepted}

pricing : Unit {0}
unfolding is_digit is_alphanumeric all_codes matches_version is_version_char digits_value
    add_invalid parse_version invalid_unset all_unset unset_variables assemble parse_rate
    parse_variables parse_pricing_config
pricing = tt

abbrev config : AiPricingConfig
config = record {
  version = "v1";
  input_rate = 250000;
  cached_input_rate = 25000;
  output_rate = 2000000;
}

abbrev environment : PricingEnvironment
environment = record {
  version = some "v1";
  input_rate = some "250000";
  cached_input_rate = some "25000";
  output_rate = some "2000000";
}

rates : HasRates config
rates = record {
  input_rate = omega arith;
  cached_input_rate = omega arith;
  output_rate = omega arith;
}

parsed : parse_pricing_config (λ cs. cs) environment ≡ ok (some config)
unfolding pricing
parsed = refl

estimate_cost_micros_within_example :
    (cost : ℕ) × (estimate_cost_micros (as_usage 1000 200 (some 400)) config ≡ ok cost)
    × (cost ≤ 20000000000)
    × (cost * 1000000 ≤ 600 * 250000 + 400 * 25000 + 200 * 2000000)
    × (600 * 250000 + 400 * 25000 + 200 * 2000000 < (cost + 1) * 1000000)
estimate_cost_micros_within_example =
    estimate_cost_micros_within 1000 200 (some 400) config rates (omega arith) (omega arith)
      (omega arith)

parse_pricing_config_sound_example : Accepted environment (some config)
parse_pricing_config_sound_example =
    parse_pricing_config_sound (λ cs. cs) environment (some config) parsed
