-- ===== src/Review/Processing/Coordinator/Coalescing.antt =====
-- review-run.coordinator.ts: one run at a time for each user and review.
use repo_mentor.Prelude.{
  Bool-cases, List, Option, String, [], ap, arith, beq_refl, eq_of_beq, false, if_elim,
  if◌then◌else◌, inl, inr, nat_eq, none, option_eq, refl, some, string_eq, sym, true, ℕ, ◌==◌, ◌↔◌,
  ◌∙◌, ◌∷◌, ◌≡◌, ◌≤◌,
}
use repo_mentor.Dict
use repo_mentor.Dict.{Dict}
use repo_mentor.Dict.Laws.{get-set_ne, get-set, get-set_self, get-delete}
use repo_mentor.Review.Processing.Coordinator.{
  idle_after, Coordinator, CoordinatorCall, process_call, cancel_call, settle_call, new_coordinator,
  run_key, start_run, process_by, process, finally_of, settle_by, settle, cancel_by, cancel, step,
  run,
}

-- The active run of a key is the unsettled run of that key, and runs are numbered in order.
pub record Coalesced (c : Coordinator) : Type 0 where
  pub listed :
      (n : ℕ) (key : String) → c.unsettled n ≡ some key → Dict.get key c.active_runs ≡ some n
  pub runs : (n : ℕ) (key : String) → Dict.get key c.active_runs ≡ some n → c.unsettled n ≡ some key
  pub fresh : (n : ℕ) → c.next_run ≤ n → c.unsettled n ≡ none

module _ (c : Coordinator) (key : String) (i : Coalesced c) where
  started_new : (n : ℕ) → (n == c.next_run) ≡ true → (start_run c key).unsettled n ≡ some key
  unfolding start_run
  started_new n new = rw new refl

  started_old : (n : ℕ) → (n == c.next_run) ≡ false → (start_run c key).unsettled n ≡ c.unsettled n
  unfolding start_run
  started_old n old = rw old refl

  started_listed :
      (n : ℕ) (k : String)
      → Dict.get key c.active_runs ≡ none
      → (start_run c key).unsettled n ≡ some k
      → Dict.get k (start_run c key).active_runs ≡ some n
  unfolding start_run
  started_listed n k free h = elim (Bool-cases (n == c.next_run)) [
    | inl new ↦
        let same : key ≡ k = cc (h, started_new n new) in
        let e : n ≡ c.next_run = eq_of_beq n c.next_run new in
        rw (← same, e) (get-set_self key c.next_run c.active_runs)
    | inr old ↦
        let before : Dict.get k c.active_runs ≡ some n =
          i.listed n k (sym (started_old n old) ∙ h) in
        elim (Bool-cases (key == k)) [
          | inl same ↦ let e : key ≡ k = eq_of_beq key k same in cc
          | inr other ↦ get-set_ne key k c.next_run c.active_runs other ∙ before
        ]
  ]

  started_runs :
      (n : ℕ) (k : String)
      → Dict.get k (start_run c key).active_runs ≡ some n
      → (start_run c key).unsettled n ≡ some k
  unfolding start_run
  started_runs n k h = elim (Bool-cases (key == k)) [
    | inl same ↦
        let e : key ≡ k = eq_of_beq key k same in
        let here : Dict.get k (Dict.set key c.next_run c.active_runs) ≡ some c.next_run =
          rw (get-set, same) refl in
        let now : n ≡ c.next_run = cc in
        started_new n ((nat_eq.beq_iff n c.next_run).1 now) ∙ ap some e
    | inr other ↦
        let before : Dict.get k c.active_runs ≡ some n =
          sym (get-set_ne key k c.next_run c.active_runs other) ∙ h in
        elim (Bool-cases (n == c.next_run)) [
          | inl new ↦
              let e : n ≡ c.next_run = eq_of_beq n c.next_run new in
              cc (i.fresh n (omega (arith, e)), i.runs n k before)
          | inr old ↦ started_old n old ∙ i.runs n k before
        ]
  ]

  started_fresh : (n : ℕ) → (start_run c key).next_run ≤ n → (start_run c key).unsettled n ≡ none
  unfolding start_run
  started_fresh n h = elim (Bool-cases (n == c.next_run)) [
    | inl new ↦ absurd (omega (arith, eq_of_beq n c.next_run new))
    | inr old ↦ started_old n old ∙ i.fresh n (omega arith)
  ]

process_by-Coalesced :
    (o : Option ℕ) (c : Coordinator) (key : String)
    → Dict.get key c.active_runs ≡ o
    → Coalesced c
    → Coalesced (process_by o c key).0
unfolding process_by
process_by-Coalesced (some n) c key e i = i
process_by-Coalesced none c key e i = record {
  listed = λ n k h. started_listed c key i n k e h;
  runs = λ n k h. started_runs c key i n k h;
  fresh = started_fresh c key i;
}

module _ (c : Coordinator) (n : ℕ) (key : String) (e : c.unsettled n ≡ some key)
    (i : Coalesced c) where
  abbrev settled : Coordinator
  settled = record c {
    active_runs = Dict.delete key c.active_runs;
    unsettled = λ m. if m == n then none else c.unsettled m;
  }

  settled_at : (m : ℕ) → (m == n) ≡ true → settled.unsettled m ≡ none
  settled_at m same = rw same refl

  settled_else : (m : ℕ) → (m == n) ≡ false → settled.unsettled m ≡ c.unsettled m
  settled_else m other = rw other refl

  settled-Coalesced : Coalesced settled
  settled-Coalesced = record {
    listed = λ m k h. elim (Bool-cases (m == n)) [
      | inl same ↦ cc (settled_at m same, h)
      | inr other ↦
          let before : Dict.get k c.active_runs ≡ some m =
            i.listed m k (sym (settled_else m other) ∙ h) in
          elim (Bool-cases (key == k)) [
            | inl here ↦
                let q : key ≡ k = eq_of_beq key k here in
                let r : m ≡ n = cc (i.listed n key e) in cc ((nat_eq.beq_iff m n).1 r)
            | inr apart ↦ rw (get-delete, apart) before
          ]
    ];
    runs = λ m k h. elim (Bool-cases (key == k)) [
      | inl here ↦
          let gone : Dict.get k (Dict.delete key c.active_runs) ≡ none =
            rw (get-delete, here) refl in
          cc
      | inr apart ↦
          let before : c.unsettled m ≡ some k = i.runs m k (rw (get-delete, apart) at h) in
          elim (Bool-cases (m == n)) [
            | inl same ↦
                let q : m ≡ n = eq_of_beq m n same in
                let r : key ≡ k = cc in cc ((string_eq.beq_iff key k).1 r)
            | inr other ↦ settled_else m other ∙ before
          ]
    ];
    fresh = λ m h. elim (Bool-cases (m == n)) [
      | inl same ↦ settled_at m same
      | inr other ↦ settled_else m other ∙ i.fresh m h
    ];
  }

  finally_of-Coalesced :
      Coalesced
        (finally_of (record c { unsettled = λ m. if m == n then none else c.unsettled m }) n key)
  unfolding finally_of
  finally_of-Coalesced =
      let listed : (Dict.get key c.active_runs == some n) ≡ true =
        rw (i.listed n key e) (beq_refl (some n)) in
      if_elim Coalesced (Dict.get key c.active_runs == some n) _ _ (λ _. settled-Coalesced)
        (λ h. cc)

settle_by-Coalesced :
    (o : Option String) (c : Coordinator) (n : ℕ)
    → c.unsettled n ≡ o
    → Coalesced c
    → Coalesced (settle_by o c n)
unfolding settle_by
settle_by-Coalesced none c n e i = i
settle_by-Coalesced (some key) c n e i = finally_of-Coalesced c n key e i

cancel_by-Coalesced : (o : Option ℕ) (c : Coordinator) → Coalesced c → Coalesced (cancel_by o c).0
unfolding cancel_by
cancel_by-Coalesced none c i = i
cancel_by-Coalesced (some n) c i = record { listed = i.listed; runs = i.runs; fresh = i.fresh }

step-Coalesced : (c : Coordinator) (call : CoordinatorCall) → Coalesced c → Coalesced (step c call)
unfolding step process cancel settle
step-Coalesced c (process_call user_id review_id) i =
    process_by-Coalesced _ c (run_key user_id review_id) refl i
step-Coalesced c (cancel_call user_id review_id) i = cancel_by-Coalesced _ c i
step-Coalesced c (settle_call n) i = settle_by-Coalesced (c.unsettled n) c n refl i

run-Coalesced :
    (c : Coordinator) (calls : List CoordinatorCall) → Coalesced c → Coalesced (run c calls)
unfolding run
run-Coalesced c [] i = i
run-Coalesced c (call ∷ calls) i = run-Coalesced (step c call) calls (step-Coalesced c call i)

new-Coalesced : Coalesced new_coordinator
unfolding Dict.get
new-Coalesced = record { listed = λ n k h. cc; runs = λ n k h. cc; fresh = λ n h. refl }

process_by_lem :
    (o : Option ℕ) (c : Coordinator) (key : String) (n : ℕ)
    → o ≡ some n
    → process_by o c key ≡ (c, n)
unfolding process_by
process_by_lem none c key n e = cc
process_by_lem (some m) c key n e = cc

cancel_by_lem :
    (o : Option ℕ) (c : Coordinator) (n : ℕ)
    → o ≡ some n
    → ((cancel_by o c).1 ≡ true) × ((cancel_by o c).0.aborted n ≡ true)
unfolding cancel_by
cancel_by_lem none c n e = cc
cancel_by_lem (some m) c n e =
    let same : n ≡ m = cc in (refl, rw ((nat_eq.beq_iff n m).1 same) refl)

cancelled_run :
    (o : Option ℕ) (c : Coordinator) (key : String)
    → Coalesced c
    → Dict.get key c.active_runs ≡ o
    → (cancel_by o c).1 ≡ true
    → (n : ℕ) × (c.unsettled n ≡ some key)
unfolding cancel_by
cancelled_run none c key i e h = cc
cancelled_run (some n) c key i e h = (n, i.runs n key e)

-- Whatever starts, cancellations and settlings there have been on a new coordinator: no two runs of one user
-- and review are unsettled, and while one is, a further start gives that run and changes nothing,
-- a cancellation succeeds and aborts that run, and waiting for idleness waits for it.
pub one_run :
    (calls : List CoordinatorCall) (n m : ℕ) (user_id review_id : String)
    → (run new_coordinator calls).unsettled n ≡ some (run_key user_id review_id)
    → (run new_coordinator calls).unsettled m ≡ some (run_key user_id review_id)
    → (m ≡ n)
      × (process (run new_coordinator calls) user_id review_id ≡ (run new_coordinator calls, n))
      × ((cancel (run new_coordinator calls) user_id review_id).1 ≡ true)
      × ((cancel (run new_coordinator calls) user_id review_id).0.aborted n ≡ true)
      × (idle_after (run new_coordinator calls) user_id review_id ≡ some n)
unfolding process cancel idle_after
one_run calls n m user_id review_id h h' =
    let c = run new_coordinator calls in
    let key = run_key user_id review_id in
    let i = run-Coalesced new_coordinator calls new-Coalesced in
    let active = i.listed n key h in
    let (says, aborts) = cancel_by_lem (Dict.get key c.active_runs) c n active in
    (
      cc (i.listed m key h'),
      process_by_lem (Dict.get key c.active_runs) c key n active,
      says,
      aborts,
      active,
    )

-- Whatever has gone before, cancelling a user's review says that there is a run exactly where one of that
-- user and review is unsettled.
pub cancel_iff :
    (calls : List CoordinatorCall) (user_id review_id : String)
    → ((cancel (run new_coordinator calls) user_id review_id).1 ≡ true)
      ↔ ((n : ℕ) × ((run new_coordinator calls).unsettled n ≡ some (run_key user_id review_id)))
unfolding cancel
cancel_iff calls user_id review_id =
    let c = run new_coordinator calls in
    let key = run_key user_id review_id in
    let i = run-Coalesced new_coordinator calls new-Coalesced in
    (
      λ h. cancelled_run (Dict.get key c.active_runs) c key i refl h,
      λ (n, h). (cancel_by_lem (Dict.get key c.active_runs) c n (i.listed n key h)).0,
    )
