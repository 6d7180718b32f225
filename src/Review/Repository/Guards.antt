-- ===== src/Review/Repository/Guards.antt =====
-- What the guards of the repository's methods let through.
use repo_mentor.Prelude.{
  Bool-cases, String, and_parts, arith, eq_of_beq, false, includes, inl, inr, leb, nat_eq,
  ne_of_not_beq, none, not, option_eq, or_parts, some, string_eq, true, ℕ, ◌&&◌, ◌<◌, ◌==◌, ◌||◌,
  ◌≡◌, ◌≢◌, ◌⊎◌,
}
use repo_mentor.Review.Types.{
  completed, processing, status_eq, ReviewRecord, ReviewStatusTransition, max_processing_generation,
}
use repo_mentor.Review.Repository.{ReviewStatus, is_visible}
use repo_mentor.Review.Repository.Writes.{may_transition, is_claimed}

pub record Visible (user_id : String) (r : ReviewRecord) : Type 0 where
  pub owner : r.user_id ≡ user_id
  pub live : r.deleted_at ≡ none

pub is_visible-Visible :
    (user_id : String) (r : ReviewRecord) → is_visible user_id r ≡ true → Visible user_id r
unfolding is_visible
is_visible-Visible user_id r h =
    let (a, b) = and_parts (r.user_id == user_id) _ h in
    record { owner = eq_of_beq r.user_id user_id a; live = ground arith }

pub record Claimed (user_id : String) (g : ℕ) (r : ReviewRecord) : Type 0 where
  pub visible : Visible user_id r
  pub status : r.status ≡ processing
  pub generation : r.processing_generation ≡ g

pub is_claimed-Claimed :
    (user_id : String) (g : ℕ) (r : ReviewRecord)
    → is_claimed user_id g r ≡ true
    → Claimed user_id g r
unfolding is_claimed
is_claimed-Claimed user_id g r h =
    let (front, c) = and_parts (is_visible user_id r && r.status == processing) _ h in
    let (a, b) = and_parts (is_visible user_id r) _ front in
    record {
      visible = is_visible-Visible user_id r a;
      status = eq_of_beq r.status processing b;
      generation = eq_of_beq r.processing_generation g c;
    }

pub is_claimed_stale :
    (user_id : String) (g : ℕ) (r : ReviewRecord)
    → (r.status ≡ processing → r.processing_generation ≢ g)
    → is_claimed user_id g r ≡ false
is_claimed_stale user_id g r h = elim (Bool-cases (is_claimed user_id g r)) [
  | inl passed ↦ let c = is_claimed-Claimed user_id g r passed in absurd (h c.status c.generation)
  | inr failed_test ↦ failed_test
]

pub record Allowed (user_id : String) (x : ReviewStatusTransition) (r : ReviewRecord) : Type 0 where
  pub visible : Visible user_id r
  pub target : x.to_status ≢ completed
  pub expected :
      (x.expected_processing_generation ≡ none)
      ⊎ (x.expected_processing_generation ≡ some r.processing_generation)
  pub room : x.to_status ≡ processing → r.processing_generation < max_processing_generation
  pub source : includes x.from_statuses r.status ≡ true

room_lem :
    (to : ReviewStatus) (n : ℕ)
    → not (to == processing && leb max_processing_generation n) ≡ true
    → to ≡ processing
    → n < max_processing_generation
room_lem processing n h e = ground arith
room_lem _ n h e = cc

pub may_transition-Allowed :
    (user_id : String) (x : ReviewStatusTransition) (r : ReviewRecord)
    → may_transition user_id x r ≡ true
    → Allowed user_id x r
unfolding may_transition
may_transition-Allowed user_id x r h =
    let (h₄, source) = and_parts _ (includes x.from_statuses r.status) h in
    let (h₃, room) =
      and_parts _
        (not (x.to_status == processing && leb max_processing_generation r.processing_generation))
        h₄ in
    let (h₂, expected) =
      and_parts _
        (x.expected_processing_generation == none
          || x.expected_processing_generation == some r.processing_generation)
        h₃ in
    let (visible, target) = and_parts (is_visible user_id r) (not (x.to_status == completed)) h₂ in
    record {
      visible = is_visible-Visible user_id r visible;
      target = ne_of_not_beq x.to_status completed target;
      expected =
          elim (or_parts _ (x.expected_processing_generation == some r.processing_generation)
            expected) [
              | inl unset ↦ inl (eq_of_beq x.expected_processing_generation none unset)
              | inr given ↦
                  inr (
                    eq_of_beq x.expected_processing_generation (some r.processing_generation) given)
            ];
      room = room_lem x.to_status r.processing_generation room;
      source = source;
    }
