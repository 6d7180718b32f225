-- ===== src/Ai/Service/Tests.antt =====
-- A review whose first result does not pass the checks.
use repo_mentor.Prelude.{
  err, false, if◌then◌else◌, nat_eq, none, ok, option_eq, refl, string_eq, ℕ, ◌==◌, ◌≡◌,
}
use repo_mentor.Ai.Errors.{validation_error}
use repo_mentor.Ai.Service.{
  Surroundings, caught, parsed, provided, ended, attempts_from, checked_review, review,
}

service : Unit {0}
unfolding caught parsed provided ended attempts_from checked_review review
service = tt

-- The provider gives the number of the attempt, and the number 0 is not a result.
abbrev second_try : Surroundings ℕ ℕ
second_try = record {
  aborted_at_entry = false;
  request_error_of = none;
  aborted_before = λ n. false;
  provide = λ n. ok n;
  aborted_after = λ n. false;
  parse = λ n. if n == 0 then err (validation_error none) else ok n;
  started_at = 5;
  now_after = λ n. 9;
}

second_try_test : review second_try ≡ (2, ok (record { result = 1; duration_ms = 4; attempts = 2 }))
unfolding service
second_try_test = refl
