-- ===== src/Review/Persistence.antt =====
-- apps/api/src/modules/review/review-result.persistence.ts: from a validated execution to the stored
-- record. The schema library (zod), and the JSON text of a result, are the parameter `Schemas`.
use mathlib.Core.Option
use repo_mentor.Prelude.{Option, Result, String, err, if◌then◌else◌, ltb, none, ok, some, ℕ, ◌>>=◌}
use repo_mentor.Ai.Pricing.{
  pos, AiPricingConfig, AiPricingUsage, PricingError, estimate_cost_micros,
}

pub record AiUsage : Type 0 where
  pub input_tokens : ℕ
  pub output_tokens : ℕ
  pub total_tokens : ℕ
  pub cached_input_tokens : Option ℕ

pub record PersistedExecution (R : Type 0) : Type 0 where
  pub attempts : ℕ
  pub duration_ms : ℕ
  pub model : String
  pub provider : String
  pub reasoning_effort : String
  pub result : R
  pub usage : Option AiUsage

pub record Schemas : Type 1 where
  pub Execution : Type 0
  pub ReviewResult : Type 0
  -- persistedAiReviewExecutionSchema.safeParse, `none` where it does not succeed
  pub safe_parse : Execution → Option (PersistedExecution ReviewResult)
  -- the number of UTF-8 bytes of JSON.stringify
  pub json_bytes : ReviewResult → ℕ

pub record PersistedAiUsage : Type 0 where
  pub input_tokens : ℕ
  pub output_tokens : ℕ
  pub total_tokens : ℕ
  pub cached_input_tokens : Option ℕ
  pub estimated_cost_micros : Option ℕ
  pub pricing_version : Option String

pub record ReviewResultRecord (R : Type 0) : Type 0 where
  pub review_id : String
  pub provider : String
  pub model : String
  pub reasoning_effort : String
  pub result : R
  pub duration_ms : ℕ
  pub attempts : ℕ
  pub usage : Option PersistedAiUsage
  pub created_at : ℕ

pub data PersistenceError : Type 0 where
  invalid_execution : PersistenceError
  pricing_failed : PricingError → PersistenceError

abbrev pub max_json_bytes : ℕ
max_json_bytes = 1048576

unfoldable pub to_pricing_usage : AiUsage → AiPricingUsage
to_pricing_usage usage = record {
  input_tokens = pos usage.input_tokens;
  output_tokens = pos usage.output_tokens;
  cached_input_tokens = Option.map pos usage.cached_input_tokens;
}

unfoldable pub with_cost : AiUsage → Option ℕ → Option String → PersistedAiUsage
with_cost usage cost version = record {
  input_tokens = usage.input_tokens;
  output_tokens = usage.output_tokens;
  total_tokens = usage.total_tokens;
  cached_input_tokens = usage.cached_input_tokens;
  estimated_cost_micros = cost;
  pricing_version = version;
}

unfoldable pub to_persisted_ai_usage_record :
    Option AiUsage → Option AiPricingConfig → Result PersistenceError (Option PersistedAiUsage)
unfolding to_pricing_usage with_cost
to_persisted_ai_usage_record none pricing = ok none
to_persisted_ai_usage_record (some usage) none = ok (some (with_cost usage none none))
to_persisted_ai_usage_record (some usage) (some config) =
    elim (estimate_cost_micros (to_pricing_usage usage) config) [
      | ok cost ↦ ok (some (with_cost usage (some cost) (some config.version)))
      | err e ↦ err (pricing_failed e)
    ]

module _ (S : Schemas) where
  unfoldable pub validate_persisted_ai_review_execution :
      S.Execution → Result PersistenceError (PersistedExecution S.ReviewResult)
  validate_persisted_ai_review_execution execution = elim (S.safe_parse execution) [
    | none ↦ err invalid_execution
    | some parsed ↦
        if ltb max_json_bytes (S.json_bytes parsed.result) then err invalid_execution else ok parsed
  ]

  unfoldable pub to_review_result_record :
      String
      → S.Execution
      → ℕ
      → Option AiPricingConfig
      → Result PersistenceError (ReviewResultRecord S.ReviewResult)
  unfolding validate_persisted_ai_review_execution to_persisted_ai_usage_record
  to_review_result_record review_id execution created_at pricing = do
    persisted ← validate_persisted_ai_review_execution execution
    usage ← to_persisted_ai_usage_record persisted.usage pricing
    ok (record {
      review_id = review_id;
      provider = persisted.provider;
      model = persisted.model;
      reasoning_effort = persisted.reasoning_effort;
      result = persisted.result;
      duration_ms = persisted.duration_ms;
      attempts = persisted.attempts;
      usage = usage;
      created_at = created_at;
    })
