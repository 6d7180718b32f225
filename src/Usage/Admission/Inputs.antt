-- ===== src/Usage/Admission/Inputs.antt =====
-- apps/api/src/modules/usage/quota-admission.hash.ts, and the two assertions on fingerprints of
-- quota-admission.fingerprint.ts. A value of type `unknown` is a `JsValue`; the length of a text that
-- passes one of these patterns is its number of code points. `nfc` is the built-in
-- `normalize("NFC")`, and `sha256_hex` the digest of node:crypto.
use repo_mentor.Prelude.{
  Bool, Option, Result, String, arith, err, if◌then◌else◌, leb, length, ltb, nat_eq, none, not, ok,
  option_eq, some, string_eq, true, ℕ, ◌&&◌, ◌==◌, ◌>>=◌, ◌||◌, ◌≡◌,
}
use repo_mentor.Text.{codes, all_codes, is_token_char, matches_opaque_id, matches_hash}
use repo_mentor.Review.Types.{ReviewMode, quick, standard, deep}
use repo_mentor.Usage.Admission.{
  input_field, idempotency_key_field, fingerprint_version_field, idempotency_key_hash_field,
  mode_field, fingerprint_error, input_error, AdmissionField, AdmissionError,
}

-- `other` is a value that is no text and no integer of at least 0.
pub data JsValue : Type 0 where
  text : String → JsValue
  number : ℕ → JsValue
  other : JsValue

abbrev pub id_max_length : ℕ
id_max_length = 25

abbrev pub max_fingerprint_version : ℕ
max_fingerprint_version = 2147483647

unfoldable pub is_opaque_id : String → Bool
is_opaque_id value =
    let cs = codes value in
    ltb 0 (length cs) && leb (length cs) id_max_length && matches_opaque_id cs

unfoldable pub assert_safe_opaque_id : String → AdmissionField → Result AdmissionError String
unfolding is_opaque_id
assert_safe_opaque_id value field = if is_opaque_id value then ok value else err (input_error field)

unfoldable pub is_hash : String → Bool
is_hash value = matches_hash (codes value)

unfoldable pub assert_idempotency_key_hash : String → Result AdmissionError String
unfolding is_hash
assert_idempotency_key_hash value =
    if is_hash value then ok value else err (input_error idempotency_key_hash_field)

unfoldable pub assert_fingerprint_hash : String → Result AdmissionError String
unfolding is_hash
assert_fingerprint_hash value =
    if is_hash value then ok value else err (fingerprint_error input_field)

unfoldable pub assert_fingerprint_version : ℕ → Result AdmissionError ℕ
assert_fingerprint_version value =
    if ltb value 1 || ltb max_fingerprint_version value
    then err (fingerprint_error fingerprint_version_field)
    else ok value

-- An optional part is checked where it is given.
abbrev pub check_optional {ℓ} :
    {A : Type ℓ} → (A → Result AdmissionError A) → Option A → Result AdmissionError (Option A)
check_optional check none = ok none
check_optional check (some a) = check a >>= λ b. ok (some b)

unfoldable pub parse_mode : String → Option ReviewMode
parse_mode value =
    if value == "QUICK"
    then some quick
    else if value == "STANDARD"
    then some standard
    else if value == "DEEP"
    then some deep
    else none

unfoldable pub assert_review_mode : JsValue → Result AdmissionError ReviewMode
unfolding parse_mode
assert_review_mode (text value) = elim (parse_mode value) [
  | none ↦ err (input_error mode_field)
  | some mode ↦ ok mode
]
assert_review_mode _ = err (input_error mode_field)

module _ (nfc : String → String) where
  unfoldable pub normalize_idempotency_key : JsValue → Result AdmissionError String
  normalize_idempotency_key (text value) =
      let normalized = nfc value in
      let cs = codes normalized in
      if not (normalized == value)
        || ltb (length cs) 22
        || ltb 128 (length cs)
        || not (all_codes is_token_char cs)
      then err (input_error idempotency_key_field)
      else ok normalized
  normalize_idempotency_key _ = err (input_error idempotency_key_field)

  unfoldable pub hash_idempotency_key : (String → String) → JsValue → Result AdmissionError String
  unfolding normalize_idempotency_key
  hash_idempotency_key sha256_hex value =
      normalize_idempotency_key value >>= λ normalized. ok (sha256_hex normalized)

-- A checked id comes back as it was, and it satisfies the pattern.
pub assert_safe_opaque_id-ok :
    (value : String) (field : AdmissionField) (checked : String)
    → assert_safe_opaque_id value field ≡ ok checked
    → (checked ≡ value) × (is_opaque_id value ≡ true)
unfolding assert_safe_opaque_id
assert_safe_opaque_id-ok value field checked h = ground arith
