-- ===== src/Review/Processing/Keepalive/Guarded.antt =====
-- ReviewLockKeepalive of review-processing.service.ts: what each of its reactions leaves of a running keepalive.
use mathlib.Core.Path.{subst}
use repo_mentor.Prelude.{
  Bool, Bool-cases, Option, ap, arith, false, if_elim, inl, inr, leb, nat_eq, ne_of_not_beq, none,
  not, option_eq, or_parts, refl, some, string_eq, sym, true, ℕ, ◌+◌, ◌==◌, ◌||◌, ◌∙◌, ◌≡◌, ◌⊎◌,
}
use repo_mentor.Review.Processing.Keepalive.Stays.{lose_lock-lost}
use repo_mentor.Review.Processing.Keepalive.{
  reject, watchdog_due, renewal_deadline, due_timer, renewal_due, schedule_cycle, watchdog_deadline,
  renewal_fires, watchdog_fires, send_renewal, renewal_rejected, react, renewed_by, Keepalive,
  Cycle,
}

-- The cycle of a keepalive that runs: it has started at `since`, the watchdog is set for it, and either its renewal timer is set or its
-- renewal is on the way.
pub record Watched (since : ℕ) (k : Keepalive) (cycle : Cycle) : Type 0 where
  pub started : cycle.started_at ≡ since
  pub watchdog : k.watchdog_timer ≡ some cycle
  pub current : k.cycle_sequence ≡ cycle.number
  pub renews :
      ((k.renewal_timer ≡ some cycle) × (k.renewal_in_flight ≡ false) × (k.renewal ≡ none))
      ⊎ ((k.renewal_timer ≡ none) × (k.renewal_in_flight ≡ true) × (k.renewal ≡ some cycle))

-- A keepalive is stopped, or it has lost the lock, or it is watched.
abbrev pub Guards : ℕ → Keepalive → Type 0
Guards since k = (k.stopped ≡ true) ⊎ (k.lost ≡ true) ⊎ ((cycle : Cycle) × Watched since k cycle)

module _ (lease_ms since : ℕ) where
  ended-Guards : (k : Keepalive) → k.stopped || k.lost ≡ true → Guards since k
  ended-Guards k h = elim (or_parts k.stopped k.lost h) [ inl a ↦ inl a | inr b ↦ inr (inl b) ]

  send_renewal-Guards :
      (now : ℕ) (cycle : Cycle) (k : Keepalive)
      → k.stopped ≡ false
      → k.watchdog_timer ≡ some cycle
      → k.cycle_sequence ≡ cycle.number
      → k.renewal_timer ≡ none
      → cycle.started_at ≡ since
      → Guards since (send_renewal lease_ms now cycle k)
  unfolding send_renewal
  send_renewal-Guards now cycle k going set current fired started =
      if_elim (Guards since) (k.stopped || k.lost) _ _ (ended-Guards k) (λ _.
        if_elim (Guards since) (leb (watchdog_deadline lease_ms cycle) now || k.renewal_in_flight) _
          _ (λ _. inr (inl (lose_lock-lost k going)))
          (λ _. inr (
            inr (
              cycle,
              record {
                started = started;
                watchdog = set;
                current = current;
                renews = inr (fired, refl, refl);
              },
            ))))

  kept_renewed : (renewed b : Bool) → (not renewed || b) ≡ false → renewed ≡ true
  kept_renewed renewed b h = ground arith

  pub renewed_by-Guards :
      (now : ℕ) (renewed : Bool) (cycle : Cycle) (k : Keepalive)
      → k.stopped ≡ false
      → k.cycle_sequence ≡ cycle.number
      → k.renewal_in_flight ≡ false
      → k.renewal ≡ none
      → (renewed ≡ true → since ≡ now)
      → Guards since (renewed_by lease_ms now renewed cycle k)
  unfolding renewed_by schedule_cycle
  renewed_by-Guards now renewed cycle k going current idle answered stamped =
      if_elim (Guards since) (k.stopped || k.lost) _ _ (ended-Guards k) (λ _.
        if_elim (Guards since) (not (k.cycle_sequence == cycle.number)) _ _
          (λ h. absurd (ne_of_not_beq k.cycle_sequence cycle.number h current))
          (λ _.
            if_elim (Guards since) (not renewed || leb (watchdog_deadline lease_ms cycle) now) _ _
              (λ _. inr (inl (lose_lock-lost k going)))
              (λ kept. inr (
                inr (
                  record { number = k.cycle_sequence + 1; started_at = now },
                  record {
                    started = sym (stamped (kept_renewed renewed _ kept));
                    watchdog = refl;
                    current = refl;
                    renews = inl (refl, idle, answered);
                  },
                )))))

  -- A timer that is set for the cycle, or not set, is due or it is not.
  due_timer-cases :
      (deadline : Cycle → ℕ) (now : ℕ) (cycle : Cycle)
      → (due_timer deadline now (some cycle) ≡ some cycle)
        ⊎ (due_timer deadline now (some cycle) ≡ none)
  unfolding due_timer
  due_timer-cases deadline now cycle = elim (Bool-cases (leb (deadline cycle) now)) [
    | inl due ↦ inl (rw due refl)
    | inr early ↦ inr (rw early refl)
  ]

  fires-Guards :
      (now : ℕ) (cycle : Cycle) (k : Keepalive)
      → k.stopped ≡ false
      → k.watchdog_timer ≡ some cycle
      → k.cycle_sequence ≡ cycle.number
      → cycle.started_at ≡ since
      → Guards since (renewal_fires lease_ms now (some cycle) k)
  unfolding renewal_fires
  fires-Guards now cycle k going set current started =
      if_elim (Guards since) (not (k.cycle_sequence == cycle.number)) _ _
        (λ h. absurd (ne_of_not_beq k.cycle_sequence cycle.number h current))
        (λ _.
          send_renewal-Guards now cycle (record k { renewal_timer = none }) going set current refl
            started)

  -- A watchdog that fires reports the loss.
  pub watchdog_fires-lost :
      (cycle : Cycle) (k : Keepalive)
      → k.stopped ≡ false
      → k.cycle_sequence ≡ cycle.number
      → (watchdog_fires (some cycle) k).lost ≡ true
  unfolding watchdog_fires
  watchdog_fires-lost cycle k going current =
      if_elim (λ (j : Keepalive). j.lost ≡ true) (not (k.cycle_sequence == cycle.number)) _ _
        (λ h. absurd (ne_of_not_beq k.cycle_sequence cycle.number h current))
        (λ _. lose_lock-lost (record k { watchdog_timer = none }) going)

  -- What an event does that reads a timer or a renewal which is `o`.
  reads :
      (act : Option Cycle → Keepalive) {o o' : Option Cycle}
      → o ≡ o'
      → Guards since (act o')
      → Guards since (act o)
  reads act e h = subst (λ x. Guards since (act x)) (sym e) h

  unset-Guards :
      (now : ℕ) (k : Keepalive)
      → Guards since k
      → Guards since (renewal_fires lease_ms now (due_timer (renewal_deadline lease_ms) now none) k)
  unfolding renewal_fires due_timer
  unset-Guards now k g = g

  no_watchdog-Guards : (k : Keepalive) → Guards since k → Guards since (watchdog_fires none k)
  unfolding watchdog_fires
  no_watchdog-Guards k g = g

  pub renewal_due-Guards :
      (now : ℕ) (cycle : Cycle) (k : Keepalive)
      → k.stopped ≡ false
      → Watched since k cycle
      → Guards since (react lease_ms k (renewal_due now))
  unfolding react renewal_fires
  renewal_due-Guards now cycle k going w =
      let due = λ (o : Option Cycle). due_timer (renewal_deadline lease_ms) now o in
      let act = λ (o : Option Cycle). renewal_fires lease_ms now o k in
      elim w.renews [
        | inl (set, idle, answered) ↦ elim (due_timer-cases (renewal_deadline lease_ms) now cycle) [
          | inl comes ↦
              reads act (ap due set ∙ comes)
                (fires-Guards now cycle k going w.watchdog w.current w.started)
          | inr early ↦ reads act (ap due set ∙ early) (inr (inr (cycle, w)))
        ]
        | inr (fired, flying, sent) ↦
            reads act (ap due fired) (unset-Guards now k (inr (inr (cycle, w))))
      ]

  pub watchdog_due-Guards :
      (now : ℕ) (cycle : Cycle) (k : Keepalive)
      → k.stopped ≡ false
      → Watched since k cycle
      → Guards since (react lease_ms k (watchdog_due now))
  unfolding react
  watchdog_due-Guards now cycle k going w =
      let due = λ (o : Option Cycle). due_timer (watchdog_deadline lease_ms) now o in
      let act = λ (o : Option Cycle). watchdog_fires o k in
      elim (due_timer-cases (watchdog_deadline lease_ms) now cycle) [
        | inl comes ↦
            reads act (ap due w.watchdog ∙ comes)
              (inr (inl (watchdog_fires-lost cycle k going w.current)))
        | inr early ↦
            reads act (ap due w.watchdog ∙ early) (no_watchdog-Guards k (inr (inr (cycle, w))))
      ]

  pub reject-Guards :
      (cycle : Cycle) (k : Keepalive)
      → k.stopped ≡ false
      → Watched since k cycle
      → Guards since (react lease_ms k reject)
  unfolding react renewal_rejected
  reject-Guards cycle k going w =
      let act = λ (o : Option Cycle). renewal_rejected o k in
      elim w.renews [
        | inl (set, idle, answered) ↦ reads act answered (inr (inr (cycle, w)))
        | inr (fired, flying, sent) ↦ reads act sent (
            inr
              (inl (lose_lock-lost (record k { renewal_in_flight = false; renewal = none }) going)))
      ]
