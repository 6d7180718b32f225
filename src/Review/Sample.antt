-- ===== src/Review/Sample.antt =====
-- Inputs that the tests share.
use repo_mentor.Prelude.{none, some, ℕ}
use repo_mentor.Review.Types.{quick, beginner, CreateReviewInput}
use repo_mentor.Review.Persistence.{Schemas, PersistedExecution}

abbrev pub plain : Schemas
plain = record {
  Execution = PersistedExecution ℕ;
  ReviewResult = ℕ;
  safe_parse = λ e. some e;
  json_bytes = λ r. r;
}

abbrev pub ann_input : CreateReviewInput
ann_input = record {
  id = none;
  user_id = "ann";
  source = "let x = 1";
  language = "ts";
  mode = quick;
  learner_level = beginner;
  title = none;
  context = none;
}

abbrev pub result_of : ℕ → PersistedExecution ℕ
result_of n = record {
  attempts = 1;
  duration_ms = 20;
  model = "m";
  provider = "p";
  reasoning_effort = "low";
  result = n;
  usage = none;
}
