-- ===== src/Review/Processing/Coordinator.antt =====
-- apps/api/src/modules/review/processing/review-run.coordinator.ts. A run is a number that stands for its promise
-- and for its abort controller. `unsettled` has the key of each run whose processing has not settled.
pub mod Coalescing
mod Tests
use repo_mentor.Prelude.{
  Bool, List, Option, String, [], false, if◌then◌else◌, nat_eq, none, option_eq, some, str_append,
  string_eq, true, ℕ, ◌+◌, ◌==◌, ◌∷◌,
}
use repo_mentor.Dict
use repo_mentor.Dict.{Dict}

pub record Coordinator : Type 0 where
  pub active_runs : Dict ℕ
  pub unsettled : ℕ → Option String
  pub aborted : ℕ → Bool
  pub next_run : ℕ

abbrev pub new_coordinator : Coordinator
new_coordinator = record {
  active_runs = [];
  unsettled = λ n. none;
  aborted = λ n. false;
  next_run = 0;
}

unfoldable pub run_key : String → String → String
run_key user_id review_id = str_append user_id (str_append "\0" review_id)

-- A new processing, whose `finally` is due when it settles.
unfoldable pub start_run : Coordinator → String → Coordinator
start_run c key = record c {
  active_runs = Dict.set key c.next_run c.active_runs;
  unsettled = λ n. if n == c.next_run then some key else c.unsettled n;
  next_run = c.next_run + 1;
}

unfoldable pub process_by : Option ℕ → Coordinator → String → Coordinator × ℕ
process_by (some run) c key = (c, run)
process_by none c key = (start_run c key, c.next_run)

unfoldable pub process : Coordinator → String → String → Coordinator × ℕ
unfolding process_by
process c user_id review_id =
    let key = run_key user_id review_id in process_by (Dict.get key c.active_runs) c key

-- The callback of `finally`.
unfoldable pub finally_of : Coordinator → ℕ → String → Coordinator
finally_of c run key =
    if Dict.get key c.active_runs == some run
    then record c { active_runs = Dict.delete key c.active_runs }
    else c

-- The processing of the run settles.
unfoldable pub settle_by : Option String → Coordinator → ℕ → Coordinator
settle_by none c run = c
settle_by (some key) c run =
    finally_of (record c { unsettled = λ n. if n == run then none else c.unsettled n }) run key

unfoldable pub settle : Coordinator → ℕ → Coordinator
unfolding settle_by
settle c run = settle_by (c.unsettled run) c run

unfoldable pub cancel_by : Option ℕ → Coordinator → Coordinator × Bool
cancel_by none c = (c, false)
cancel_by (some run) c = (record c { aborted = λ n. if n == run then true else c.aborted n }, true)

unfoldable pub cancel : Coordinator → String → String → Coordinator × Bool
cancel c user_id review_id = cancel_by (Dict.get (run_key user_id review_id) c.active_runs) c

-- The run that `waitForIdle` waits for.
unfoldable pub idle_after : Coordinator → String → String → Option ℕ
idle_after c user_id review_id = Dict.get (run_key user_id review_id) c.active_runs

pub data CoordinatorCall : Type 0 where
  process_call cancel_call : String → String → CoordinatorCall
  settle_call : ℕ → CoordinatorCall

unfoldable pub step : Coordinator → CoordinatorCall → Coordinator
step c (process_call user_id review_id) = (process c user_id review_id).0
step c (cancel_call user_id review_id) = (cancel c user_id review_id).0
step c (settle_call run) = settle c run

unfoldable pub run : Coordinator → List CoordinatorCall → Coordinator
run c [] = c
run c (call ∷ calls) = run (step c call) calls
