-- ===== src/Ai/Pricing.antt =====
-- apps/api/src/modules/ai/ai-pricing.ts: the cost estimate and the checks on its configuration.
-- A text is its list of code points; `BigInt` is exact, and numbers are exact in the safe range.
pub mod Bounds
pub mod Parsing
mod Tests
use repo_mentor.Text.{codes, is_digit, is_alphanumeric, all_codes}
use repo_mentor.Prelude.{
  Bool, Eq, List, Option, Result, String, [], arith, err, false, get_or, if◌then◌else◌, includes,
  is_some, leb, length, ltb, nat_eq, none, not, ok, option_eq, some, string_eq, true, ℕ, ◌&&◌, ◌*◌,
  ◌++◌, ◌+◌, ◌-◌, ◌/◌, ◌==◌, ◌||◌, ◌↔◌, ◌∷◌, ◌≡◌,
}

-- An integer token count as the provider reports it; `negsuc n` is -(n + 1).
pub data ℤ : Type 0 where
  pos : ℕ → ℤ
  negsuc : ℕ → ℤ

pub record AiPricingConfig : Type 0 where
  pub version : String
  pub input_rate : ℕ
  pub cached_input_rate : ℕ
  pub output_rate : ℕ

pub record AiPricingUsage : Type 0 where
  pub input_tokens : ℤ
  pub output_tokens : ℤ
  pub cached_input_tokens : Option ℤ

-- `RangeError`
pub data PricingError : Type 0 where
  range_error : PricingError

abbrev pub max_rate : ℕ
max_rate = 1000000000

abbrev pub rate_divisor : ℕ
rate_divisor = 1000000

abbrev pub max_safe_integer : ℕ
max_safe_integer = 9007199254740991

unfoldable pub to_non_negative : ℤ → ℕ
to_non_negative (pos n) = n
to_non_negative (negsuc n) = 0

unfoldable pub uncached_tokens : ℕ → ℕ → ℕ
uncached_tokens input cached = if ltb cached input then input - cached else 0

unfoldable pub cost_numerator : AiPricingUsage → AiPricingConfig → ℕ
unfolding to_non_negative uncached_tokens
cost_numerator usage config =
    let input = to_non_negative usage.input_tokens in
    let cached = to_non_negative (get_or usage.cached_input_tokens (pos 0)) in
    let output = to_non_negative usage.output_tokens in
    uncached_tokens input cached * config.input_rate
    + cached * config.cached_input_rate
    + output * config.output_rate

unfoldable pub estimate_cost_micros : AiPricingUsage → AiPricingConfig → Result PricingError ℕ
unfolding cost_numerator
estimate_cost_micros usage config =
    let cost = cost_numerator usage config / rate_divisor in
    if ltb max_safe_integer cost then err range_error else ok cost

-- `.`, `_` and `-`
unfoldable pub is_version_char : ℕ → Bool
unfolding is_alphanumeric
is_version_char c = is_alphanumeric c || c == 46 || c == 95 || c == 45

-- /^[A-Za-z0-9][A-Za-z0-9._-]{0,79}$/u
unfoldable pub matches_version : List ℕ → Bool
unfolding is_version_char all_codes
matches_version [] = false
matches_version (c ∷ cs) = is_alphanumeric c && (all_codes is_version_char cs && leb (length cs) 79)

-- `Number` of a text of digits.
unfoldable pub digits_value : ℕ → List ℕ → ℕ
digits_value acc [] = acc
digits_value acc (c ∷ cs) = digits_value (acc * 10 + (c - 48)) cs

-- The variables, by their names in the environment.
pub data Variable : Type 0 where
  version_variable input_variable cached_input_variable output_variable : Variable

abbrev variable_code : Variable → ℕ
variable_code version_variable = 0
variable_code input_variable = 1
variable_code cached_input_variable = 2
variable_code output_variable = 3

pub variable_beq_iff : (a b : Variable) → ((variable_code a == variable_code b) ≡ true) ↔ (a ≡ b)
variable_beq_iff a b = ground arith

instance abbrev pub variable_eq : Eq Variable
variable_eq = record { beq = λ a b. variable_code a == variable_code b; beq_iff = variable_beq_iff }

-- `Set.prototype.add`
unfoldable pub add_invalid : Variable → List Variable → List Variable
add_invalid v invalid = if includes invalid v then invalid else invalid ++ v ∷ []

unfoldable pub parse_version :
    Variable → Option String → List Variable → Option String × List Variable
unfolding matches_version add_invalid
parse_version name none invalid = (none, add_invalid name invalid)
parse_version name (some raw) invalid =
    if not (matches_version (codes raw)) || ltb 80 (length (codes raw))
    then (none, add_invalid name invalid)
    else (some raw, invalid)

-- The environment's four variables.
pub record PricingEnvironment : Type 0 where
  pub version : Option String
  pub input_rate : Option String
  pub cached_input_rate : Option String
  pub output_rate : Option String

unfoldable pub invalid_unset : Variable → Option String → List Variable → List Variable
unfolding add_invalid
invalid_unset name none invalid = add_invalid name invalid
invalid_unset name (some _) invalid = invalid

unfoldable pub all_unset : PricingEnvironment → Bool
all_unset env =
    not (is_some env.version)
    && not (is_some env.input_rate)
    && not (is_some env.cached_input_rate)
    && not (is_some env.output_rate)

unfoldable pub unset_variables : PricingEnvironment → List Variable
unset_variables env = invalid_unset output_variable env.output_rate (
    invalid_unset cached_input_variable env.cached_input_rate
      (invalid_unset input_variable env.input_rate (invalid_unset version_variable env.version [])))

-- InvalidAiPricingConfigError sorts the names, which are AI_CACHED_INPUT_..., AI_INPUT_..., AI_OUTPUT_... and
-- AI_PRICING_VERSION; they are distinct already.
abbrev variable_rank : Variable → ℕ
variable_rank cached_input_variable = 0
variable_rank input_variable = 1
variable_rank output_variable = 2
variable_rank version_variable = 3

unfoldable insert_variable : Variable → List Variable → List Variable
insert_variable v [] = v ∷ []
insert_variable v (w ∷ ws) =
    let rest = insert_variable v ws in
    if leb (variable_rank v) (variable_rank w) then v ∷ w ∷ ws else w ∷ rest

unfoldable pub sorted_variables : List Variable → List Variable
unfolding insert_variable
sorted_variables [] = []
sorted_variables (v ∷ vs) = insert_variable v (sorted_variables vs)

-- The last test of `parseAiPricingConfig`: `undefined` in any part, or any invalid variable.
unfoldable pub assemble :
    Option String
    → Option ℕ
    → Option ℕ
    → Option ℕ
    → List Variable
    → Result (List Variable) (Option AiPricingConfig)
unfolding sorted_variables
assemble (some v) (some i) (some c) (some o) [] =
    ok (some (record { version = v; input_rate = i; cached_input_rate = c; output_rate = o }))
assemble v i c o invalid = err (sorted_variables invalid)

-- `trim` is the built-in of the language, with the white space of Unicode.
module _ (trim : List ℕ → List ℕ) where
  unfoldable pub parse_rate : Variable → Option String → List Variable → Option ℕ × List Variable
  unfolding all_codes is_digit digits_value add_invalid
  parse_rate name none invalid = (none, add_invalid name invalid)
  parse_rate name (some raw) invalid =
      let normalized = trim (codes raw) in
      if not (ltb 0 (length normalized) && all_codes is_digit normalized)
      then (none, add_invalid name invalid)
      else let value = digits_value 0 normalized in
        if ltb max_rate value then (none, add_invalid name invalid) else (some value, invalid)

  unfoldable pub parse_variables :
      PricingEnvironment → Result (List Variable) (Option AiPricingConfig)
  parse_variables env =
      let version = parse_version version_variable env.version (unset_variables env) in
      let input = parse_rate input_variable env.input_rate version.1 in
      let cached = parse_rate cached_input_variable env.cached_input_rate input.1 in
      let output = parse_rate output_variable env.output_rate cached.1 in
      assemble version.0 input.0 cached.0 output.0 output.1

  unfoldable pub parse_pricing_config :
      PricingEnvironment → Result (List Variable) (Option AiPricingConfig)
  unfolding all_unset parse_variables
  parse_pricing_config env = if all_unset env then ok none else parse_variables env
