-- ===== src/Usage/Admission/Fingerprint/Tests.antt =====
-- A request's message, and the theorem at it.
use repo_mentor.Prelude.{List, Result, [], arith, err, none, ok, refl, some, ℕ, ◌≡◌}
use repo_mentor.Text.{codes}
use repo_mentor.Review.Types.{quick, beginner}
use repo_mentor.Usage.Admission.Fingerprint.{
  AdmissionError, encode_version, encode_length_prefixed, encode_optional_length_prefixed,
  mode_text, learner_level_text, FingerprintParts, build_fingerprint_message,
}
use repo_mentor.Usage.Admission.Fingerprint.Decoding.{build_fingerprint_message_injective}

fingerprint : Unit {0}
unfolding encode_version encode_length_prefixed encode_optional_length_prefixed mode_text
    learner_level_text build_fingerprint_message
fingerprint = tt

abbrev request : FingerprintParts
request = record {
  fingerprint_version = 2;
  source_bytes = codes "let x = 1";
  language_bytes = codes "ts";
  mode = quick;
  learner_level = beginner;
  title_bytes = none;
  context_bytes = some [];
}

abbrev message_of : Result AdmissionError (List ℕ) → List ℕ
message_of (ok message) = message
message_of (err e) = []

request_built :
    build_fingerprint_message request ≡ ok (message_of (build_fingerprint_message request))
unfolding fingerprint
request_built = refl

build_fingerprint_message_injective_example : request ≡ request
build_fingerprint_message_injective_example =
    build_fingerprint_message_injective request request
      (message_of (build_fingerprint_message request)) (omega arith) (omega arith) request_built
      request_built
