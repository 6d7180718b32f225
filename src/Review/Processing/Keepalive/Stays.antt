-- ===== src/Review/Processing/Keepalive/Stays.antt =====
-- ReviewLockKeepalive of review-processing.service.ts: what no event undoes.
use repo_mentor.Prelude.{
  Bool, Option, arith, false, if_elim, leb, nat_eq, none, not, option_eq, refl, some, string_eq,
  true, ℕ, ◌==◌, ◌||◌, ◌≡◌,
}
use repo_mentor.Review.Processing.Keepalive.{
  answer, watchdog_due, renewal_due, reject, stop_call, KeepaliveEvent, Keepalive, Cycle,
  renewal_deadline, due_timer, schedule_cycle, stop, watchdog_deadline, renewal_fires,
  watchdog_fires, lose_lock, send_renewal, renewal_rejected, renewal_answered, react, renewed_by,
}

-- A stopped keepalive stays stopped, and a lost lock stays lost.
abbrev pub Stays : Keepalive → Keepalive → Type 0
Stays k k' = (k.stopped ≡ true → k'.stopped ≡ true) × (k.lost ≡ true → k'.lost ≡ true)

same-Stays : (k : Keepalive) → Stays k k
same-Stays k = (λ h. h, λ h. h)

lose_lock-Stays : (k j : Keepalive) → Stays k j → Stays k (lose_lock j)
unfolding lose_lock
lose_lock-Stays k j s = if_elim (Stays k) (j.stopped || j.lost) _ _ (λ _. s) (λ _. (s.0, λ h. refl))

-- The lock is lost unless the keepalive is stopped.
pub lose_lock-lost : (k : Keepalive) → k.stopped ≡ false → (lose_lock k).lost ≡ true
unfolding lose_lock
lose_lock-lost k going = ground arith

module _ (lease_ms : ℕ) where
  send_renewal-Stays :
      (now : ℕ) (cycle : Cycle) (k j : Keepalive)
      → Stays k j
      → Stays k (send_renewal lease_ms now cycle j)
  unfolding send_renewal
  send_renewal-Stays now cycle k j s =
      if_elim (Stays k) (j.stopped || j.lost) _ _ (λ _. s)
        (λ _.
          if_elim (Stays k) (leb (watchdog_deadline lease_ms cycle) now || j.renewal_in_flight) _ _
            (λ _. lose_lock-Stays k j s) (λ _. s))

  renewal_fires-Stays :
      (now : ℕ) (timer : Option Cycle) (k : Keepalive)
      → Stays k (renewal_fires lease_ms now timer k)
  unfolding renewal_fires
  renewal_fires-Stays now none k = same-Stays k
  renewal_fires-Stays now (some cycle) k =
      if_elim (Stays k) (not (k.cycle_sequence == cycle.number)) _ _ (λ _. same-Stays k)
        (λ _. send_renewal-Stays now cycle k (record k { renewal_timer = none }) (same-Stays k))

  watchdog_fires-Stays : (timer : Option Cycle) (k : Keepalive) → Stays k (watchdog_fires timer k)
  unfolding watchdog_fires
  watchdog_fires-Stays none k = same-Stays k
  watchdog_fires-Stays (some cycle) k =
      if_elim (Stays k) (not (k.cycle_sequence == cycle.number)) _ _ (λ _. same-Stays k)
        (λ _. lose_lock-Stays k (record k { watchdog_timer = none }) (same-Stays k))

  renewed_by-Stays :
      (now : ℕ) (renewed : Bool) (cycle : Cycle) (k j : Keepalive)
      → Stays k j
      → Stays k (renewed_by lease_ms now renewed cycle j)
  unfolding renewed_by schedule_cycle
  renewed_by-Stays now renewed cycle k j s =
      if_elim (Stays k) (j.stopped || j.lost) _ _ (λ _. s)
        (λ _.
          if_elim (Stays k) (not (j.cycle_sequence == cycle.number)) _ _ (λ _. s)
            (λ _.
              if_elim (Stays k) (not renewed || leb (watchdog_deadline lease_ms cycle) now) _ _
                (λ _. lose_lock-Stays k j s) (λ _. s)))

  renewal_answered-Stays :
      (now : ℕ) (renewed : Bool) (renewal : Option Cycle) (k : Keepalive)
      → Stays k (renewal_answered lease_ms now renewed renewal k)
  unfolding renewal_answered
  renewal_answered-Stays now renewed none k = same-Stays k
  renewal_answered-Stays now renewed (some cycle) k =
      renewed_by-Stays now renewed cycle k (record k { renewal_in_flight = false; renewal = none })
        (same-Stays k)

  renewal_rejected-Stays :
      (renewal : Option Cycle) (k : Keepalive) → Stays k (renewal_rejected renewal k)
  unfolding renewal_rejected
  renewal_rejected-Stays none k = same-Stays k
  renewal_rejected-Stays (some cycle) k =
      lose_lock-Stays k (record k { renewal_in_flight = false; renewal = none }) (same-Stays k)

  pub react-Stays : (k : Keepalive) (e : KeepaliveEvent) → Stays k (react lease_ms k e)
  unfolding react stop
  react-Stays k (renewal_due now) =
      renewal_fires-Stays now (due_timer (renewal_deadline lease_ms) now k.renewal_timer) k
  react-Stays k (watchdog_due now) =
      watchdog_fires-Stays (due_timer (watchdog_deadline lease_ms) now k.watchdog_timer) k
  react-Stays k (answer now renewed) = renewal_answered-Stays now renewed k.renewal k
  react-Stays k reject = renewal_rejected-Stays k.renewal k
  react-Stays k stop_call = (λ h. refl, λ h. h)
