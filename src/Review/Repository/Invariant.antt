-- ===== src/Review/Repository/Invariant.antt =====
-- What holds of the stored reviews and their event logs between two calls.
use repo_mentor.Prelude.{
  Bool, Bool-cases, List, Option, String, [], arith, eq_of_beq, false, get_or, inl, inr, is_some,
  last?, length, nat_eq, option_eq, refl, some, string_eq, suc, true, ℕ, ◌++◌, ◌+◌, ◌==◌, ◌∷◌, ◌≡◌,
  ◌≤◌,
}
use repo_mentor.Dict
use repo_mentor.Dict.Laws.{get-set}
use repo_mentor.Review.Types.{
  completed, ReviewRecord, ReviewEventRecord, max_processing_generation, max_event_sequence,
}
use repo_mentor.Review.Repository.{Repository}

-- The events are numbered upwards from `n`, without a gap.
abbrev pub Numbered : ℕ → List ReviewEventRecord → Type 0
Numbered n [] = Unit
Numbered n (e ∷ es) = (e.sequence ≡ n) × Numbered (suc n) es

pub Numbered-append :
    (n : ℕ) (es : List ReviewEventRecord) (e : ReviewEventRecord)
    → Numbered n es
    → e.sequence ≡ n + length es
    → Numbered n (es ++ e ∷ [])
Numbered-append n [] e h k = (omega arith, tt)
Numbered-append n (x ∷ es) e h k = (h.0, Numbered-append (suc n) es e h.1 (omega arith))

-- The last event of the log shows the review as it is stored.
abbrev pub Shows : List ReviewEventRecord → ReviewRecord → Type 0
Shows log r =
    (e : ReviewEventRecord) × (last? log ≡ some e)
    × (e.status ≡ r.status)
    × (e.generation ≡ r.processing_generation)
    × (e.review_id ≡ r.id)

-- A stored review beside its log, its counter of events, and whether it has a result.
pub record HasLog (id : String) (r : ReviewRecord) (log : List ReviewEventRecord) (count : Option ℕ)
    (has : Bool) : Type 0 where
  pub same_id : r.id ≡ id
  pub generation_bounded : r.processing_generation ≤ max_processing_generation
  pub numbered : Numbered 1 log
  pub counted : count ≡ some (length log)
  pub bounded : length log ≤ max_event_sequence
  pub shown : Shows log r
  pub has_result : r.status ≡ completed → has ≡ true

module _ {R : Type 0} where
  abbrev pub log_of : Repository R → String → List ReviewEventRecord
  log_of s id = get_or (Dict.get id s.events) []

  abbrev pub Logged : Repository R → String → ReviewRecord → Type 0
  Logged s id r =
      HasLog id r (log_of s id) (Dict.get id s.event_sequences) (is_some (Dict.get id s.results))

  abbrev pub IsValid : Repository R → Type 0
  IsValid s = (id : String) (r : ReviewRecord) → Dict.get id s.reviews ≡ some r → Logged s id r

  -- A write at one id that leaves the other entries alone.
  pub IsValid-update :
      (s t : Repository R) (id : String) (r : ReviewRecord)
      → t.reviews ≡ Dict.set id r s.reviews
      → ((j : String)
          → (id == j) ≡ false
          → (Dict.get j t.events ≡ Dict.get j s.events)
            × (Dict.get j t.event_sequences ≡ Dict.get j s.event_sequences)
            × (Dict.get j t.results ≡ Dict.get j s.results))
      → Logged t id r
      → IsValid s
      → IsValid t
  IsValid-update s t id r stored kept here v = λ j q h. elim (Bool-cases (id == j)) [
    | inl same ↦
        let e : id ≡ j = eq_of_beq id j same in
        let stored_at : Dict.get j t.reviews ≡ some r = rw (stored, get-set, same) refl in
        let same_review : r ≡ q = cc in rw (← e, ← same_review) here
    | inr other ↦
        let old : Dict.get j s.reviews ≡ some q = rw (stored, get-set, other) at h in
        let (a, b, c) = kept j other in rw (a, b, c) (v j q old)
  ]
