-- ===== src/Review/Processing/Mapping.antt =====
-- review-processing.errors.ts: what is made of an error of the AI boundary.
use repo_mentor.Prelude.{Bool, Bool-cases, false, inl, inr, not, ok, refl, true, ◌&&◌, ◌||◌, ◌≡◌}
use repo_mentor.Ai.Errors.{
  AiError, provider_error, request_error, validation_error, abort_error, unknown_error,
}
use repo_mentor.Review.Processing.{
  ReviewProcessingErrorMapping, mapped_failure, mapped_cancellation, map_ai_error, map_unaborted,
  map_provider_failure, is_abort_error, is_cancelled_code,
}

abbrev pub is_cancellation : ReviewProcessingErrorMapping → Bool
is_cancellation (mapped_cancellation c) = true
is_cancellation (mapped_failure f) = false

abbrev pub is_retryable : ReviewProcessingErrorMapping → Bool
is_retryable (mapped_cancellation c) = false
is_retryable (mapped_failure f) = f.retryable

-- The provider reports that the call was cancelled; the provider allows a retry.
abbrev pub reports_cancelled : AiError → Bool
reports_cancelled (provider_error error) = is_cancelled_code error.code
reports_cancelled _ = false

abbrev pub allows_retry : AiError → Bool
allows_retry (provider_error error) = error.retryable
allows_retry _ = false

-- Mapping an error never throws, although the mapping of a provider's failure can: the result is a
-- cancellation exactly where the caller aborted, the error is an abort, or the provider reports a
-- cancelled call, and otherwise a failure, which is retryable exactly where the provider says so.
pub map_ai_error-total :
    (error : AiError) (aborted : Bool)
    → (m : ReviewProcessingErrorMapping) × (map_ai_error error aborted ≡ ok m)
      × (is_cancellation m ≡ (aborted || is_abort_error error || reports_cancelled error))
      × (is_retryable m ≡ (not (is_cancellation m) && allows_retry error))
unfolding map_ai_error map_unaborted map_provider_failure
map_ai_error-total error true = (mapped_cancellation _, refl, refl, refl)
map_ai_error-total abort_error false = (mapped_cancellation _, refl, refl, refl)
map_ai_error-total request_error false = (mapped_failure _, refl, refl, refl)
map_ai_error-total (validation_error attempts) false = (mapped_failure _, refl, refl, refl)
map_ai_error-total unknown_error false = (mapped_failure _, refl, refl, refl)
map_ai_error-total (provider_error e) false = elim (Bool-cases (is_cancelled_code e.code)) [
  | inl stopped ↦ rw stopped (mapped_cancellation _, refl, refl, refl)
  | inr other ↦ rw other (mapped_failure _, refl, refl, refl)
]
