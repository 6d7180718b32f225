-- ===== src/Review/Repository.antt =====
-- apps/api/src/modules/review/in-memory-review.repository.ts. A method returns the new state with
-- its result, or the error that it throws, in which case the state is as before the call.
pub mod Writes
pub mod Guards
pub mod Branches
pub mod Invariant
pub mod Preserve
pub mod Calls
pub mod Log
pub mod Listing
pub mod Identifiers
pub mod Fencing
pub mod Evolution
pub mod Sequence
pub mod Ownership
pub mod Claims
pub mod Returned
mod Tests
use repo_mentor.Prelude.{
  Bool, Bool-cases, List, Option, Result, String, [], err, false, get_or, if◌then◌else◌, inl, inr,
  is_some, last?, length, ltb, nat_eq, none, not, ok, option_eq, refl, some, str_append, string_eq,
  suc, take, true, zero, ℕ, ◌%◌, ◌&&◌, ◌++◌, ◌+◌, ◌-◌, ◌/◌, ◌==◌, ◌∷◌, ◌≡◌, ◌⊎◌,
}
use repo_mentor.Dict
use repo_mentor.Dict.{Dict}
use repo_mentor.Ai.Pricing.{AiPricingConfig}
use repo_mentor.Review.Types.{
  ReviewStatus, pending, processing, completed, failed, cancelled, status_eq, ReviewRecord,
  ReviewEventType, snapshot_event, completed_event, failed_event, cancelled_event,
  CreateReviewInput, ReviewStatusTransition, ReviewEventRecord, max_processing_generation,
  max_event_sequence,
}
use repo_mentor.Review.Persistence.{
  Schemas, PersistenceError, ReviewResultRecord, to_review_result_record,
}

pub data RepositoryError : Type 0 where
  sequence_exhausted : RepositoryError
  persistence_failed : PersistenceError → RepositoryError

-- The fields of `InMemoryReviewRepository`; `R` is the type of a review's result.
pub record Repository (R : Type 0) : Type 0 where
  pub reviews : Dict ReviewRecord
  pub results : Dict (ReviewResultRecord R)
  pub events : Dict (List ReviewEventRecord)
  pub event_sequences : Dict ℕ
  pub sequence : ℕ
  pub pricing_config : Option AiPricingConfig

unfoldable pub event_type_for_status : ReviewStatus → ReviewEventType
event_type_for_status completed = completed_event
event_type_for_status failed = failed_event
event_type_for_status cancelled = cancelled_event
event_type_for_status _ = snapshot_event

unfoldable pub lifecycle_event : ReviewRecord → Option Bool → ℕ → ReviewEventRecord
unfolding event_type_for_status
lifecycle_event review retryable sequence = record {
  created_at = review.updated_at;
  generation = review.processing_generation;
  result_available = review.status == completed;
  retryable = if review.status == failed then some (get_or retryable false) else none;
  review_id = review.id;
  sequence = sequence;
  status = review.status;
  event_type = event_type_for_status review.status;
}

abbrev base36_digits : List String
base36_digits =
    "0" ∷ "1" ∷ "2" ∷ "3" ∷ "4" ∷ "5" ∷ "6" ∷ "7" ∷ "8" ∷ "9" ∷ "a" ∷ "b" ∷ "c" ∷ "d" ∷ "e" ∷ "f"
    ∷ "g" ∷ "h" ∷ "i" ∷ "j" ∷ "k" ∷ "l" ∷ "m" ∷ "n" ∷ "o" ∷ "p" ∷ "q" ∷ "r" ∷ "s" ∷ "t" ∷ "u" ∷ "v"
    ∷ "w" ∷ "x" ∷ "y" ∷ "z" ∷ []

-- A digit of `toString(36)`.
unfoldable pub base36_digit : ℕ → String
base36_digit d = get_or (last? (take (d + 1) base36_digits)) ""

-- `n.toString(36)` after `n` rounds at most, on fuel; then `padStart(24, "0")`.
unfoldable pub to_base36 : ℕ → ℕ → List String → List String
unfolding base36_digit
to_base36 zero n acc = acc
to_base36 (suc fuel) n acc =
    let rest = to_base36 fuel (n / 36) (base36_digit (n % 36) ∷ acc) in
    if ltb n 36 then base36_digit n ∷ acc else rest

unfoldable pub join : List String → String
join [] = ""
join (s ∷ ss) = str_append s (join ss)

unfoldable pub zeros : ℕ → List String
zeros zero = []
zeros (suc n) = "0" ∷ zeros n

unfoldable pub generated_id : ℕ → String
unfolding to_base36 join zeros
generated_id n =
    let digits = to_base36 (suc n) n [] in join ("c" ∷ (zeros (24 - length digits) ++ digits))

-- `input.id ?? … ++this.sequence …` moves the counter only where an id is generated.
unfoldable pub next_id_sequence : ℕ → Option String → ℕ
next_id_sequence sequence none = sequence + 1
next_id_sequence sequence (some _) = sequence

unfoldable pub new_review : CreateReviewInput → String → ℕ → ReviewRecord
new_review input id now = record {
  created_at = now;
  context = input.context;
  deleted_at = none;
  id = id;
  language = input.language;
  mode = input.mode;
  learner_level = input.learner_level;
  processing_generation = 0;
  source = input.source;
  title = input.title;
  status = pending;
  updated_at = now;
  user_id = input.user_id;
}

unfoldable pub initial_event : ReviewRecord → ReviewEventRecord
initial_event review = record {
  created_at = review.created_at;
  generation = review.processing_generation;
  result_available = false;
  retryable = none;
  review_id = review.id;
  sequence = 1;
  status = review.status;
  event_type = snapshot_event;
}

-- `if (!review || …) return fallback;` and what follows it.
unfoldable pub with_review {ℓ} :
    {B : Type ℓ} → Option ReviewRecord → (ReviewRecord → Bool) → B → (ReviewRecord → B) → B
with_review none test fallback f = fallback
with_review (some review) test fallback f = if test review then f review else fallback

-- Such a call falls back, or it goes on with the stored review, which passes the test.
pub with_review-cases {ℓ} :
    {B : Type ℓ} (o : Option ReviewRecord) (test : ReviewRecord → Bool) (fallback : B)
    (f : ReviewRecord → B)
    → (with_review o test fallback f ≡ fallback)
      ⊎ ((r : ReviewRecord) × (o ≡ some r)
          × (test r ≡ true)
          × (with_review o test fallback f ≡ f r))
unfolding with_review
with_review-cases none test fallback f = inl refl
with_review-cases (some r) test fallback f = elim (Bool-cases (test r)) [
  | inl passed ↦ inr (r, refl, passed, rw passed)
  | inr failed_test ↦ inl (rw failed_test)
]

pub with_review-some {ℓ} :
    {B : Type ℓ} {o : Option ReviewRecord} {r : ReviewRecord} (test : ReviewRecord → Bool)
    (fallback : B) (f : ReviewRecord → B)
    → o ≡ some r
    → test r ≡ true
    → with_review o test fallback f ≡ f r
unfolding with_review
with_review-some {r} test fallback f found passed = rw found (rw passed)

pub with_review-fails {ℓ} :
    {B : Type ℓ} {o : Option ReviewRecord} {r : ReviewRecord} (test : ReviewRecord → Bool)
    (fallback : B) (f : ReviewRecord → B)
    → o ≡ some r
    → test r ≡ false
    → with_review o test fallback f ≡ fallback
unfolding with_review
with_review-fails {r} test fallback f found failed_test = rw found (rw failed_test)

-- The guard that every method for a user begins with.
unfoldable pub is_visible : String → ReviewRecord → Bool
is_visible user_id review = review.user_id == user_id && not (is_some review.deleted_at)

module _ {R : Type 0} where
  unfoldable pub empty : Option AiPricingConfig → Repository R
  empty pricing = record {
    reviews = [];
    results = [];
    events = [];
    event_sequences = [];
    sequence = 0;
    pricing_config = pricing;
  }

  unfoldable pub next_sequence : Repository R → String → ℕ
  next_sequence s id = get_or (Dict.get id s.event_sequences) 0 + 1

  -- The writes of `appendEvent`.
  unfoldable pub appended : Repository R → ReviewRecord → Option Bool → Repository R
  unfolding next_sequence
  appended s review retryable =
      let sequence = next_sequence s review.id in
      record s {
        event_sequences = Dict.set review.id sequence s.event_sequences;
        events =
            Dict.set review.id
              (get_or (Dict.get review.id s.events) []
                ++ lifecycle_event review retryable sequence ∷ [])
              s.events;
      }

  -- `appendEvent`
  unfoldable pub append_event :
      Repository R → ReviewRecord → Option Bool → Result RepositoryError (Repository R)
  unfolding appended
  append_event s review retryable =
      if ltb max_event_sequence (next_sequence s review.id)
      then err sequence_exhausted
      else ok (appended s review retryable)

  -- The writes of `create`.
  unfoldable pub insert_review : Repository R → ReviewRecord → Repository R
  insert_review s review = record s {
    reviews = Dict.set review.id review s.reviews;
    event_sequences = Dict.set review.id 1 s.event_sequences;
    events = Dict.set review.id (initial_event review ∷ []) s.events;
  }

  unfoldable pub create : Repository R → CreateReviewInput → ℕ → Repository R × ReviewRecord
  unfolding insert_review
  create s input now =
      let sequence = next_id_sequence s.sequence input.id in
      let review = new_review input (get_or input.id (generated_id sequence)) now in
      (insert_review (record s { sequence = sequence }) review, review)

  unfoldable pub find_by_id_for_user : Repository R → String → String → Option ReviewRecord
  find_by_id_for_user s user_id id =
      with_review (Dict.get id s.reviews) (is_visible user_id) none some
