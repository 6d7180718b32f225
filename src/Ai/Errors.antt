-- ===== src/Ai/Errors.antt =====
-- apps/api/src/modules/ai/ai.errors.ts. A message is fixed by its code and is left out.
use repo_mentor.Prelude.{Bool, Option, false, none, some, true, ℕ}

pub data AiProviderErrorCode : Type 0 where
  authentication bad_request provider_cancelled configuration incomplete_response invalid_request
        malformed_response provider_refusal rate_limited timeout unavailable :
      AiProviderErrorCode

pub record AiProviderError : Type 0 where
  pub code : AiProviderErrorCode
  pub normalized_from_unknown : Bool
  pub retryable : Bool
  pub status_code : Option ℕ
  pub attempts : Option ℕ

-- What a call of the AI boundary throws. `abort_error` is an error whose name is "AbortError", and
-- `unknown_error` any other value.
pub data AiError : Type 0 where
  provider_error : AiProviderError → AiError
  request_error : AiError
  validation_error : Option ℕ → AiError
  abort_error : AiError
  unknown_error : AiError

-- `new AiProviderError(code)`
unfoldable pub new_provider_error : AiProviderErrorCode → AiProviderError
new_provider_error code = record {
  code = code;
  normalized_from_unknown = false;
  retryable = false;
  status_code = none;
  attempts = none;
}

unfoldable pub with_attempts : AiProviderError → ℕ → AiProviderError
with_attempts error attempts = record error { attempts = some attempts }

unfoldable pub as_ai_provider_error : AiError → AiProviderError
unfolding new_provider_error
as_ai_provider_error (provider_error error) = error
as_ai_provider_error _ = record (new_provider_error unavailable) { normalized_from_unknown = true }
