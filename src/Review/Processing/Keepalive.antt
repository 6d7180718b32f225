-- ===== src/Review/Processing/Keepalive.antt =====
-- review-processing.service.ts: `ReviewLockKeepalive`, which renews the lock of a processing. Times are counted
-- in thirds of a millisecond, so a third of the lease is a whole number. A timer may fire at any time
-- from its deadline on, and a renewal may be answered at any time, or never.
pub mod Stays
pub mod Guarded
pub mod Watch
mod Tests
use repo_mentor.Prelude.{
  Bool, List, Option, [], false, if◌then◌else◌, leb, nat_eq, none, not, option_eq, some, string_eq,
  true, ℕ, ◌*◌, ◌+◌, ◌==◌, ◌||◌, ◌∷◌,
}

-- What the callbacks of one cycle know: `cycle` and `startedAt`.
pub record Cycle : Type 0 where
  pub number : ℕ
  pub started_at : ℕ

-- A timer that is set, or a renewal that is not answered, is kept with its cycle.
pub record Keepalive : Type 0 where
  pub renewal_timer : Option Cycle
  pub watchdog_timer : Option Cycle
  pub renewal_in_flight : Bool
  pub renewal : Option Cycle
  pub stopped : Bool
  pub lost : Bool
  pub cycle_sequence : ℕ

abbrev pub new_keepalive : Keepalive
new_keepalive = record {
  renewal_timer = none;
  watchdog_timer = none;
  renewal_in_flight = false;
  renewal = none;
  stopped = false;
  lost = false;
  cycle_sequence = 0;
}

-- `startedAt + leaseMs / 3` and `startedAt + (leaseMs * 2) / 3`
unfoldable pub renewal_deadline : ℕ → Cycle → ℕ
renewal_deadline lease_ms cycle = cycle.started_at + lease_ms

unfoldable pub watchdog_deadline : ℕ → Cycle → ℕ
watchdog_deadline lease_ms cycle = cycle.started_at + lease_ms * 2

unfoldable pub schedule_cycle : ℕ → Keepalive → Keepalive
schedule_cycle started_at k =
    let cycle : Cycle = record { number = k.cycle_sequence + 1; started_at = started_at } in
    record k {
      cycle_sequence = k.cycle_sequence + 1;
      renewal_timer = some cycle;
      watchdog_timer = some cycle;
    }

-- `lose`; a loss is reported once, when `lost` is set.
unfoldable pub lose_lock : Keepalive → Keepalive
lose_lock k = if k.stopped || k.lost then k else record k { lost = true }

unfoldable pub start : ℕ → Keepalive
unfolding schedule_cycle
start now = schedule_cycle now new_keepalive

unfoldable pub stop : Keepalive → Keepalive
stop k = record k { stopped = true; renewal_timer = none; watchdog_timer = none }

-- The callback of the watchdog timer.
unfoldable pub watchdog_fires : Option Cycle → Keepalive → Keepalive
unfolding lose_lock
watchdog_fires none k = k
watchdog_fires (some cycle) k =
    if not (k.cycle_sequence == cycle.number)
    then k
    else lose_lock (record k { watchdog_timer = none })

unfoldable pub renewal_rejected : Option Cycle → Keepalive → Keepalive
unfolding lose_lock
renewal_rejected none k = k
renewal_rejected (some cycle) k = lose_lock (record k { renewal_in_flight = false; renewal = none })

-- A timer that `scheduleAt` has set, once its deadline has come.
unfoldable pub due_timer : (Cycle → ℕ) → ℕ → Option Cycle → Option Cycle
due_timer deadline now none = none
due_timer deadline now (some cycle) = if leb (deadline cycle) now then some cycle else none

-- What may happen to a keepalive, with its time where the code reads the clock.
pub data KeepaliveEvent : Type 0 where
  renewal_due watchdog_due : ℕ → KeepaliveEvent
  answer : ℕ → Bool → KeepaliveEvent
  reject stop_call : KeepaliveEvent

module _ (lease_ms : ℕ) where
  unfoldable pub send_renewal : ℕ → Cycle → Keepalive → Keepalive
  unfolding lose_lock watchdog_deadline
  send_renewal now cycle k =
      if k.stopped || k.lost
      then k
      else if leb (watchdog_deadline lease_ms cycle) now || k.renewal_in_flight
      then lose_lock k
      else record k { renewal_in_flight = true; renewal = some cycle }

  -- The callback of the renewal timer.
  unfoldable pub renewal_fires : ℕ → Option Cycle → Keepalive → Keepalive
  unfolding send_renewal
  renewal_fires now none k = k
  renewal_fires now (some cycle) k =
      if not (k.cycle_sequence == cycle.number)
      then k
      else send_renewal now cycle (record k { renewal_timer = none })

  unfoldable pub renewed_by : ℕ → Bool → Cycle → Keepalive → Keepalive
  unfolding lose_lock watchdog_deadline schedule_cycle
  renewed_by now renewed cycle k =
      if k.stopped || k.lost
      then k
      else if not (k.cycle_sequence == cycle.number)
      then k
      else if not renewed || leb (watchdog_deadline lease_ms cycle) now
      then lose_lock k
      else schedule_cycle now (record k { watchdog_timer = none })

  -- The two continuations of a renewal.
  unfoldable pub renewal_answered : ℕ → Bool → Option Cycle → Keepalive → Keepalive
  unfolding renewed_by
  renewal_answered now renewed none k = k
  renewal_answered now renewed (some cycle) k =
      renewed_by now renewed cycle (record k { renewal_in_flight = false; renewal = none })

  unfoldable pub react : Keepalive → KeepaliveEvent → Keepalive
  react k (renewal_due now) =
      renewal_fires now (due_timer (renewal_deadline lease_ms) now k.renewal_timer) k
  react k (watchdog_due now) =
      watchdog_fires (due_timer (watchdog_deadline lease_ms) now k.watchdog_timer) k
  react k (answer now renewed) = renewal_answered now renewed k.renewal k
  react k reject = renewal_rejected k.renewal k
  react k stop_call = stop k

  unfoldable pub react_all : Keepalive → List KeepaliveEvent → Keepalive
  react_all k [] = k
  react_all k (e ∷ es) = react_all (react k e) es
