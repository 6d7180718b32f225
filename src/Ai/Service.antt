-- ===== src/Ai/Service.antt =====
-- apps/api/src/modules/ai/ai-review.service.ts. The checks of a request and of a result, the prompt builder and the
-- provider are not in that file: `Surroundings` has what they give and throw in one call of `review`,
-- and what the signal and the clock show at each moment at which they are read.
pub mod Attempts
mod Tests
use repo_mentor.Prelude.{
  Bool, Option, Result, err, if◌then◌else◌, nat_eq, none, ok, option_eq, some, string_eq, suc, zero,
  ℕ, ◌+◌, ◌-◌, ◌==◌,
}
use repo_mentor.Ai.Errors.{
  AiProviderErrorCode, AiError, new_provider_error, as_ai_provider_error, provider_error,
  request_error, validation_error, abort_error, unknown_error, provider_cancelled,
  malformed_response,
}

-- `O` is what a provider gives, and `R` a parsed result. A moment is one of the attempt with that number.
pub record Surroundings (O R : Type 0) : Type 0 where
  pub aborted_at_entry : Bool
  pub request_error_of : Option AiError
  pub aborted_before : ℕ → Bool
  pub provide : ℕ → Result AiError O
  pub aborted_after : ℕ → Bool
  pub parse : O → Result AiError R
  pub started_at : ℕ
  pub now_after : ℕ → ℕ

-- The provider, the model and the effort, which the request fixes, and the usage, which is passed on, are
-- left out.
pub record ReviewExecution (R : Type 0) : Type 0 where
  pub result : R
  pub duration_ms : ℕ
  pub attempts : ℕ

abbrev pub max_result_retries : ℕ
max_result_retries = 1

-- How an attempt ends: the service returns or throws, or it goes on to the next attempt.
pub data AttemptEnd (R : Type 0) : Type 0 where
  returns : ReviewExecution R → AttemptEnd R
  throws : AiError → AttemptEnd R
  goes_on : AttemptEnd R

module _ {O R : Type 0} (around : Surroundings O R) where
  -- The inner `catch`.
  unfoldable pub caught : ℕ → AiError → AttemptEnd R
  caught attempt (provider_error e) = throws (provider_error e)
  caught attempt (validation_error n) =
      if attempt == max_result_retries
      then throws (validation_error (some (attempt + 1)))
      else goes_on
  caught attempt _ = throws (provider_error (new_provider_error malformed_response))

  unfoldable pub parsed : ℕ → Result AiError R → AttemptEnd R
  unfolding caught
  parsed attempt (err e) = caught attempt e
  parsed attempt (ok result) = returns (record {
    result = result;
    duration_ms = around.now_after attempt - around.started_at;
    attempts = attempt + 1;
  })

  unfoldable pub provided : ℕ → Result AiError O → AttemptEnd R
  unfolding parsed
  provided attempt (err e) = throws (provider_error (as_ai_provider_error e))
  provided attempt (ok output) =
      if around.aborted_after attempt
      then caught attempt (provider_error (new_provider_error provider_cancelled))
      else parsed attempt (around.parse output)

  unfoldable pub ended :
      AttemptEnd R
      → ℕ × Result AiError (ReviewExecution R)
      → ℕ
      → ℕ × Result AiError (ReviewExecution R)
  ended (returns execution) rest calls = (calls, ok execution)
  ended (throws e) rest calls = (calls, err e)
  ended goes_on rest calls = rest

  -- The loop, with the attempts that are left, and the calls of the provider that have been made at its end.
  unfoldable pub attempts_from : ℕ → ℕ → ℕ × Result AiError (ReviewExecution R)
  unfolding provided ended
  attempts_from zero attempt = (attempt, err (validation_error (some (max_result_retries + 1))))
  attempts_from (suc left) attempt =
      let rest = attempts_from left (attempt + 1) in
      if around.aborted_before attempt
      then (attempt, err (provider_error (new_provider_error provider_cancelled)))
      else ended (provided attempt (around.provide attempt)) rest (attempt + 1)

  unfoldable pub checked_review : Option AiError → ℕ × Result AiError (ReviewExecution R)
  unfolding attempts_from
  checked_review (some e) = (0, err e)
  checked_review none = attempts_from (max_result_retries + 1) 0

  -- The calls of the provider that `review` makes, and what it returns or throws.
  unfoldable pub review : ℕ × Result AiError (ReviewExecution R)
  unfolding checked_review
  review =
      if around.aborted_at_entry
      then (0, err (provider_error (new_provider_error provider_cancelled)))
      else checked_review around.request_error_of
