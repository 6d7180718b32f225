-- ===== src/Usage/Admission/Fingerprint.antt =====
-- quota-admission.fingerprint.ts in apps/api/src/modules/usage: the message that is hashed. A Buffer is
-- the list of its bytes; a constant text of ASCII characters is encoded as its code points.
pub mod Decoding
mod Tests
use repo_mentor.Prelude.{
  List, Option, Result, String, [], err, if◌then◌else◌, length, ltb, none, ok, some, ℕ, ◌%◌, ◌++◌,
  ◌/◌, ◌>>=◌, ◌>>◌, ◌∷◌,
}
use repo_mentor.Text.{codes}
use repo_mentor.Review.Types.{
  ReviewMode, quick, standard, deep, ReviewLearnerLevel, beginner, intermediate, advanced,
}
use repo_mentor.Usage.Admission.{input_field, AdmissionError, fingerprint_error, fingerprint_field}

abbrev pub max_length_prefix_value : ℕ
max_length_prefix_value = 4294967295

-- `writeUInt32BE`
unfoldable pub encode_version : ℕ → List ℕ
encode_version value =
    value / 16777216 % 256 ∷ value / 65536 % 256 ∷ value / 256 % 256 ∷ value % 256 ∷ []

unfoldable pub encode_length_prefixed : List ℕ → Result AdmissionError (List ℕ)
encode_length_prefixed value =
    if ltb max_length_prefix_value (length value)
    then err (fingerprint_error input_field)
    else ok (encode_version (length value) ++ value)

unfoldable pub encode_optional_length_prefixed : Option (List ℕ) → Result AdmissionError (List ℕ)
encode_optional_length_prefixed none = ok (0 ∷ [])
encode_optional_length_prefixed (some value) =
    encode_length_prefixed value >>= λ encoded. ok (1 ∷ encoded)

unfoldable pub mode_text : ReviewMode → String
mode_text quick = "QUICK"
mode_text standard = "STANDARD"
mode_text deep = "DEEP"

unfoldable pub learner_level_text : ReviewLearnerLevel → String
learner_level_text beginner = "BEGINNER"
learner_level_text intermediate = "INTERMEDIATE"
learner_level_text advanced = "ADVANCED"

abbrev pub fingerprint_domain : String
fingerprint_domain = "repomentor:usage:quota-admission:fingerprint"

-- The arguments of `buildFingerprintMessage`.
pub record FingerprintParts : Type 0 where
  pub fingerprint_version : ℕ
  pub source_bytes : List ℕ
  pub language_bytes : List ℕ
  pub mode : ReviewMode
  pub learner_level : ReviewLearnerLevel
  pub title_bytes : Option (List ℕ)
  pub context_bytes : Option (List ℕ)

unfoldable pub build_fingerprint_message : FingerprintParts → Result AdmissionError (List ℕ)
build_fingerprint_message parts = do
  domain ← encode_length_prefixed (codes fingerprint_domain)
  version ← encode_length_prefixed (encode_version parts.fingerprint_version)
  source ← encode_length_prefixed parts.source_bytes
  language ← encode_length_prefixed parts.language_bytes
  mode ← encode_length_prefixed (codes (mode_text parts.mode))
  learner_level ← encode_length_prefixed (codes (learner_level_text parts.learner_level))
  title ← encode_optional_length_prefixed parts.title_bytes
  context ← encode_optional_length_prefixed parts.context_bytes
  ok (
      domain
      ++ (version ++ (source ++ (language ++ (mode ++ (learner_level ++ (title ++ context)))))))
