-- ===== src/Ai/Service/Attempts.antt =====
-- ai-review.service.ts: how often the provider is called.
use repo_mentor.Prelude.{Result, err, nat_eq, ok, option_eq, string_eq, ℕ, ◌+◌, ◌≡◌, ◌≤◌}
use repo_mentor.Ai.Errors.{AiError}
use repo_mentor.Ai.Service.{Surroundings, ReviewExecution, AttemptEnd, returns}

-- What an execution or an error says of the calls that were made.
abbrev pub Counted : {R : Type 0} → ℕ → Result AiError (ReviewExecution R) → Type 0
Counted calls (ok execution) = execution.attempts ≡ calls
Counted calls (err e) = Unit

module _ {O R : Type 0} (around : Surroundings O R) where
  abbrev EndCounted : ℕ → AttemptEnd R → Type 0
  EndCounted attempt (returns execution) = execution.attempts ≡ attempt + 1
  EndCounted attempt _ = Unit

  -- The calls and what they ended with.
  abbrev Within : ℕ → ℕ → ℕ × Result AiError (ReviewExecution R) → Type 0
  Within low high p = (low ≤ p.0) × (p.0 ≤ high) × Counted p.0 p.1
