-- ===== src/Review/Processing/Coordinator/Tests.antt =====
-- A run of the coordinator, and its theorems there.
use repo_mentor.Prelude.{List, [], refl, some, true, ℕ, ◌↔◌, ◌∷◌, ◌≡◌}
use repo_mentor.Dict
use repo_mentor.Review.Processing.Coordinator.{
  Coordinator, CoordinatorCall, process_call, settle_call, new_coordinator, run_key, start_run,
  process_by, process, finally_of, settle_by, settle, cancel_by, cancel, idle_after, step, run,
}
use repo_mentor.Review.Processing.Coordinator.Coalescing.{one_run, cancel_iff}

coordinator : Unit {0}
unfolding start_run process_by process finally_of settle_by settle cancel_by cancel step run run_key
    Dict.get Dict.set Dict.delete
coordinator = tt

abbrev twice : List CoordinatorCall
twice =
    process_call "ann" "r"
    ∷ process_call "ann" "r"
    ∷ process_call "bob" "r"
    ∷ settle_call 0
    ∷ process_call "ann" "r"
    ∷ []

abbrev after_twice : Coordinator
after_twice = run new_coordinator twice

abbrev third : ℕ
third = 2

two_unsettled : after_twice.unsettled 2 ≡ some (run_key "ann" "r")
unfolding coordinator
two_unsettled = refl

one_run_example :
    (third ≡ third)
    × (process after_twice "ann" "r" ≡ (after_twice, 2))
    × ((cancel after_twice "ann" "r").1 ≡ true)
    × ((cancel after_twice "ann" "r").0.aborted 2 ≡ true)
    × (idle_after after_twice "ann" "r" ≡ some 2)
one_run_example = one_run twice 2 2 "ann" "r" two_unsettled two_unsettled

cancel_iff_example :
    ((cancel after_twice "ann" "r").1 ≡ true)
    ↔ ((n : ℕ) × (after_twice.unsettled n ≡ some (run_key "ann" "r")))
cancel_iff_example = cancel_iff twice "ann" "r"
