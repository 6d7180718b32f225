-- ===== src/Usage/Admission/Fingerprint/Decoding.antt =====
-- A message determines the parts that it was built from.
use repo_mentor.Prelude.{
  >>=-eq-ok, Bool-cases, List, Option, [], ap, arith, if◌then◌else◌, inl, inr, length, ltb, none,
  ok, ok_unique, refl, some, sym, ℕ, ◌%◌, ◌++◌, ◌/◌, ◌∙◌, ◌∷◌, ◌≡◌, ◌≤◌,
}
use repo_mentor.Review.Types.{
  ReviewMode, quick, standard, deep, ReviewLearnerLevel, beginner, intermediate, advanced,
}
use repo_mentor.Usage.Admission.Fingerprint.{
  fingerprint_domain, build_fingerprint_message, FingerprintParts, codes, ReviewLearnerLevel,
  ReviewMode, encode_optional_length_prefixed, mode_text, encode_length_prefixed,
  learner_level_text, encode_version, max_length_prefix_value,
}

four_bytes :
    (m n : ℕ)
    → m ≤ max_length_prefix_value
    → n ≤ max_length_prefix_value
    → m / 16777216 % 256 ≡ n / 16777216 % 256
    → m / 65536 % 256 ≡ n / 65536 % 256
    → m / 256 % 256 ≡ n / 256 % 256
    → m % 256 ≡ n % 256
    → m ≡ n
four_bytes m n h k a b c d = omega (arith, h, k, a, b, c, d)

same_length : (a b r t : List ℕ) → length a ≡ length b → a ++ r ≡ b ++ t → (a ≡ b) × (r ≡ t)
same_length [] [] r t h e = (refl, e)
same_length [] (y ∷ b) r t h e = absurd (omega (arith, h))
same_length (x ∷ a) [] r t h e = absurd (omega (arith, h))
same_length (x ∷ a) (y ∷ b) r t h e =
    let first : x ≡ y = cc in
    let rest : a ++ r ≡ b ++ t = cc in
    let (same, tails) = same_length a b r t (omega (arith, h)) rest in
    (rw (first, same) refl, tails)

version_injective :
    (m n : ℕ) (r t : List ℕ)
    → m ≤ max_length_prefix_value
    → n ≤ max_length_prefix_value
    → encode_version m ++ r ≡ encode_version n ++ t
    → (m ≡ n) × (r ≡ t)
unfolding encode_version
version_injective m n r t h k e =
    let a : m / 16777216 % 256 ≡ n / 16777216 % 256 = cc in
    let b : m / 65536 % 256 ≡ n / 65536 % 256 = cc in
    let c : m / 256 % 256 ≡ n / 256 % 256 = cc in
    let d : m % 256 ≡ n % 256 = cc in (four_bytes m n h k a b c d, cc)

prefixed-ok :
    (a p : List ℕ)
    → encode_length_prefixed a ≡ ok p
    → (length a ≤ max_length_prefix_value) × (encode_version (length a) ++ a ≡ p)
unfolding encode_length_prefixed
prefixed-ok a p h = elim (Bool-cases (ltb max_length_prefix_value (length a))) [
  | inl long ↦ cc (rw (long, if◌then◌else◌) at h)
  | inr fits ↦ (ground (arith, fits), ok_unique (ok _) refl (rw (fits, if◌then◌else◌) at h))
]

-- A length prefix says where its part ends.
prefixed_injective :
    (a b p q r t : List ℕ)
    → encode_length_prefixed a ≡ ok p
    → encode_length_prefixed b ≡ ok q
    → p ++ r ≡ q ++ t
    → (a ≡ b) × (r ≡ t)
unfolding encode_version
prefixed_injective a b p q r t h k e =
    let (small_a, ep) = prefixed-ok a p h in
    let (small_b, eq) = prefixed-ok b q k in
    let whole : encode_version (length a) ++ (a ++ r) ≡ encode_version (length b) ++ (b ++ t) =
      rw (← ep, ← eq) at e in
    let (lengths, rest) =
      version_injective (length a) (length b) (a ++ r) (b ++ t) small_a small_b whole in
    same_length a b r t lengths rest

cons_parts : (x y : ℕ) (r t : List ℕ) → x ∷ r ≡ y ∷ t → (x ≡ y) × (r ≡ t)
cons_parts x y r t e = (cc, cc)

optional_injective :
    (a b : Option (List ℕ)) (p q r t : List ℕ)
    → encode_optional_length_prefixed a ≡ ok p
    → encode_optional_length_prefixed b ≡ ok q
    → p ++ r ≡ q ++ t
    → (a ≡ b) × (r ≡ t)
unfolding encode_optional_length_prefixed
optional_injective none none p q r t h k e =
    let ep : p ≡ 0 ∷ [] = sym (ok_unique (ok _) refl h) in
    let eq : q ≡ 0 ∷ [] = sym (ok_unique (ok _) refl k) in
    (refl, (cons_parts 0 0 r t (rw (ep, eq) at e)).1)
optional_injective none (some b) p q r t h k e =
    let (q', _, k') = >>=-eq-ok (encode_length_prefixed b) _ k in
    let ep : p ≡ 0 ∷ [] = sym (ok_unique (ok _) refl h) in
    let eq : q ≡ 1 ∷ q' = sym (ok_unique (ok _) refl k') in
    absurd (omega (arith, (cons_parts 0 1 r (q' ++ t) (rw (ep, eq) at e)).0))
optional_injective (some a) none p q r t h k e =
    let (p', _, h') = >>=-eq-ok (encode_length_prefixed a) _ h in
    let ep : p ≡ 1 ∷ p' = sym (ok_unique (ok _) refl h') in
    let eq : q ≡ 0 ∷ [] = sym (ok_unique (ok _) refl k) in
    absurd (omega (arith, (cons_parts 1 0 (p' ++ r) t (rw (ep, eq) at e)).0))
optional_injective (some a) (some b) p q r t h k e =
    let (p', a_ok, h') = >>=-eq-ok (encode_length_prefixed a) _ h in
    let (q', b_ok, k') = >>=-eq-ok (encode_length_prefixed b) _ k in
    let ep : p ≡ 1 ∷ p' = sym (ok_unique (ok _) refl h') in
    let eq : q ≡ 1 ∷ q' = sym (ok_unique (ok _) refl k') in
    let (same, rest) =
      prefixed_injective a b p' q' r t a_ok b_ok
        (cons_parts 1 1 (p' ++ r) (q' ++ t) (rw (ep, eq) at e)).1 in
    (rw same refl, rest)

mode_injective : (m n : ReviewMode) → codes (mode_text m) ≡ codes (mode_text n) → m ≡ n
unfolding mode_text
mode_injective quick quick h = refl
mode_injective quick standard h = absurd (omega (arith, (cons_parts _ _ _ _ h).0))
mode_injective quick deep h = absurd (omega (arith, (cons_parts _ _ _ _ h).0))
mode_injective standard quick h = absurd (omega (arith, (cons_parts _ _ _ _ h).0))
mode_injective standard standard h = refl
mode_injective standard deep h = absurd (omega (arith, (cons_parts _ _ _ _ h).0))
mode_injective deep quick h = absurd (omega (arith, (cons_parts _ _ _ _ h).0))
mode_injective deep standard h = absurd (omega (arith, (cons_parts _ _ _ _ h).0))
mode_injective deep deep h = refl

level_injective :
    (m n : ReviewLearnerLevel) → codes (learner_level_text m) ≡ codes (learner_level_text n) → m ≡ n
unfolding learner_level_text
level_injective beginner beginner h = refl
level_injective beginner intermediate h = absurd (omega (arith, (cons_parts _ _ _ _ h).0))
level_injective beginner advanced h = absurd (omega (arith, (cons_parts _ _ _ _ h).0))
level_injective intermediate beginner h = absurd (omega (arith, (cons_parts _ _ _ _ h).0))
level_injective intermediate intermediate h = refl
level_injective intermediate advanced h = absurd (omega (arith, (cons_parts _ _ _ _ h).0))
level_injective advanced beginner h = absurd (omega (arith, (cons_parts _ _ _ _ h).0))
level_injective advanced intermediate h = absurd (omega (arith, (cons_parts _ _ _ _ h).0))
level_injective advanced advanced h = refl

parts_equal :
    (p q : FingerprintParts)
    → p.fingerprint_version ≡ q.fingerprint_version
    → p.source_bytes ≡ q.source_bytes
    → p.language_bytes ≡ q.language_bytes
    → p.mode ≡ q.mode
    → p.learner_level ≡ q.learner_level
    → p.title_bytes ≡ q.title_bytes
    → p.context_bytes ≡ q.context_bytes
    → p ≡ q
parts_equal p q a b c d e f g = cc

append_nil : (xs : List ℕ) → xs ++ [] ≡ xs
append_nil [] = refl
append_nil (x ∷ xs) = ap (λ ys. x ∷ ys) (append_nil xs)

-- The encoded parts of a message.
record Built (p : FingerprintParts) (message : List ℕ) : Type 0 where
  domain : List ℕ
  version : List ℕ
  source : List ℕ
  language : List ℕ
  mode : List ℕ
  level : List ℕ
  title : List ℕ
  context : List ℕ
  domain_ok : encode_length_prefixed (codes fingerprint_domain) ≡ ok domain
  version_ok : encode_length_prefixed (encode_version p.fingerprint_version) ≡ ok version
  source_ok : encode_length_prefixed p.source_bytes ≡ ok source
  language_ok : encode_length_prefixed p.language_bytes ≡ ok language
  mode_ok : encode_length_prefixed (codes (mode_text p.mode)) ≡ ok mode
  level_ok : encode_length_prefixed (codes (learner_level_text p.learner_level)) ≡ ok level
  title_ok : encode_optional_length_prefixed p.title_bytes ≡ ok title
  context_ok : encode_optional_length_prefixed p.context_bytes ≡ ok context
  whole :
      message
      ≡ domain ++ (version ++ (source ++ (language ++ (mode ++ (level ++ (title ++ context))))))

build-Built :
    (p : FingerprintParts) (message : List ℕ)
    → build_fingerprint_message p ≡ ok message
    → Built p message
unfolding build_fingerprint_message
build-Built p message h =
    let (d, d_ok, h₁) = >>=-eq-ok (encode_length_prefixed (codes fingerprint_domain)) _ h in
    let (v, v_ok, h₂) =
      >>=-eq-ok (encode_length_prefixed (encode_version p.fingerprint_version)) _ h₁ in
    let (s, s_ok, h₃) = >>=-eq-ok (encode_length_prefixed p.source_bytes) _ h₂ in
    let (l, l_ok, h₄) = >>=-eq-ok (encode_length_prefixed p.language_bytes) _ h₃ in
    let (m, m_ok, h₅) = >>=-eq-ok (encode_length_prefixed (codes (mode_text p.mode))) _ h₄ in
    let (n, n_ok, h₆) =
      >>=-eq-ok (encode_length_prefixed (codes (learner_level_text p.learner_level))) _ h₅ in
    let (t, t_ok, h₇) = >>=-eq-ok (encode_optional_length_prefixed p.title_bytes) _ h₆ in
    let (c, c_ok, h₈) = >>=-eq-ok (encode_optional_length_prefixed p.context_bytes) _ h₇ in
    record {
      domain = d;
      version = v;
      source = s;
      language = l;
      mode = m;
      level = n;
      title = t;
      context = c;
      domain_ok = d_ok;
      version_ok = v_ok;
      source_ok = s_ok;
      language_ok = l_ok;
      mode_ok = m_ok;
      level_ok = n_ok;
      title_ok = t_ok;
      context_ok = c_ok;
      whole = sym (ok_unique (ok _) refl h₈);
    }

Built-unique :
    (p q : FingerprintParts) (message : List ℕ)
    → p.fingerprint_version ≤ max_length_prefix_value
    → q.fingerprint_version ≤ max_length_prefix_value
    → Built p message
    → Built q message
    → p ≡ q
Built-unique p q message small_p small_q a b =
    let (_, e₁) =
      prefixed_injective _ _ a.domain b.domain _ _ a.domain_ok b.domain_ok
        (sym a.whole ∙ b.whole) in
    let (version, e₂) =
      prefixed_injective _ _ a.version b.version _ _ a.version_ok b.version_ok e₁ in
    let (source, e₃) = prefixed_injective _ _ a.source b.source _ _ a.source_ok b.source_ok e₂ in
    let (language, e₄) =
      prefixed_injective _ _ a.language b.language _ _ a.language_ok b.language_ok e₃ in
    let (mode, e₅) = prefixed_injective _ _ a.mode b.mode _ _ a.mode_ok b.mode_ok e₄ in
    let (level, e₆) = prefixed_injective _ _ a.level b.level _ _ a.level_ok b.level_ok e₅ in
    let (title, e₇) = optional_injective _ _ a.title b.title _ _ a.title_ok b.title_ok e₆ in
    let (context, _) =
      optional_injective _ _ a.context b.context [] [] a.context_ok b.context_ok
        (append_nil a.context ∙ e₇ ∙ sym (append_nil b.context)) in
    let (same_version, _) =
      version_injective p.fingerprint_version q.fingerprint_version [] [] small_p small_q
        (append_nil _ ∙ version ∙ sym (append_nil _)) in
    parts_equal p q same_version source language (mode_injective p.mode q.mode mode)
      (level_injective p.learner_level q.learner_level level) title context

-- Two requests with the same message have the same version, texts, mode and level, and the same title and
-- context, given or not, if their versions fit in 32 bits.
pub build_fingerprint_message_injective :
    (p q : FingerprintParts) (message : List ℕ)
    → p.fingerprint_version ≤ max_length_prefix_value
    → q.fingerprint_version ≤ max_length_prefix_value
    → build_fingerprint_message p ≡ ok message
    → build_fingerprint_message q ≡ ok message
    → p ≡ q
build_fingerprint_message_injective p q message small_p small_q h k =
    Built-unique p q message small_p small_q (build-Built p message h) (build-Built q message k)
