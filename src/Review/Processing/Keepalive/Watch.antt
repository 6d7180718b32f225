-- ===== src/Review/Processing/Keepalive/Watch.antt =====
-- ReviewLockKeepalive of review-processing.service.ts: the watchdog of a running keepalive.
use mathlib.Core.Path.{subst}
use repo_mentor.Prelude.{
  Bool, Bool-cases, List, Option, [], ap, arith, false, if◌then◌else◌, inl, inr, is_some, leb, none,
  refl, some, sym, ℕ, ◌&&◌, ◌*◌, ◌+◌, ◌∙◌, ◌∷◌, ◌≡◌,
}
use repo_mentor.Review.Processing.Keepalive.Stays.{react-Stays}
use repo_mentor.Review.Processing.Keepalive.{
  react_all, start, reject, stop_call, answer, watchdog_due, due_timer, renewal_due, KeepaliveEvent,
  schedule_cycle, stop, watchdog_deadline, watchdog_fires, renewal_answered, react, Keepalive,
  Cycle,
}
use repo_mentor.Review.Processing.Keepalive.Guarded.{
  Watched, Guards, renewed_by-Guards, renewal_due-Guards, watchdog_due-Guards, reject-Guards,
  watchdog_fires-lost,
}

-- When the lock was last known to be held: at `since`, or at an answer that a renewal on the way has renewed it.
abbrev pub confirmed_by : ℕ → Keepalive → KeepaliveEvent → ℕ
confirmed_by since k (answer now renewed) = if renewed && is_some k.renewal then now else since
confirmed_by since k _ = since

abbrev pub confirmed : ℕ → ℕ → Keepalive → List KeepaliveEvent → ℕ
confirmed lease_ms since k [] = since
confirmed lease_ms since k (e ∷ es) =
    confirmed lease_ms (confirmed_by since k e) (react lease_ms k e) es

module _ (lease_ms : ℕ) where
  answer-Guards :
      (since now : ℕ) (renewed : Bool) (cycle : Cycle) (k : Keepalive)
      → k.stopped ≡ false
      → Watched since k cycle
      → Guards (confirmed_by since k (answer now renewed)) (react lease_ms k (answer now renewed))
  unfolding react renewal_answered
  answer-Guards since now renewed cycle k going w =
      let stamp = λ (o : Option Cycle). if renewed && is_some o then now else since in
      let P = λ (o : Option Cycle). Guards (stamp o) (renewal_answered lease_ms now renewed o k) in
      elim w.renews [
        | inl (set, idle, answered) ↦
            let unstamped : stamp none ≡ since = ground arith in
            subst P (sym answered) (rw unstamped (inr (inr (cycle, w))))
        | inr (fired, flying, sent) ↦ subst P (sym sent) (
            renewed_by-Guards lease_ms (stamp (some cycle)) now renewed cycle
              (record k { renewal_in_flight = false; renewal = none }) going w.current refl refl
              (λ e. rw e refl))
      ]

  Watched-Guards :
      (since : ℕ) (cycle : Cycle) (k : Keepalive) (e : KeepaliveEvent)
      → k.stopped ≡ false
      → Watched since k cycle
      → Guards (confirmed_by since k e) (react lease_ms k e)
  unfolding react stop
  Watched-Guards since cycle k (renewal_due now) going w =
      renewal_due-Guards lease_ms since now cycle k going w
  Watched-Guards since cycle k (watchdog_due now) going w =
      watchdog_due-Guards lease_ms since now cycle k going w
  Watched-Guards since cycle k (answer now renewed) going w =
      answer-Guards since now renewed cycle k going w
  Watched-Guards since cycle k reject going w = reject-Guards lease_ms since cycle k going w
  Watched-Guards since cycle k stop_call going w = inl refl

  react-Guards :
      (since : ℕ) (k : Keepalive) (e : KeepaliveEvent)
      → Guards since k
      → Guards (confirmed_by since k e) (react lease_ms k e)
  react-Guards since k e (inl over) = inl ((react-Stays lease_ms k e).0 over)
  react-Guards since k e (inr (inl gone)) = inr (inl ((react-Stays lease_ms k e).1 gone))
  react-Guards since k e (inr (inr (cycle, w))) = elim (Bool-cases k.stopped) [
    | inl over ↦ inl ((react-Stays lease_ms k e).0 over)
    | inr going ↦ Watched-Guards since cycle k e going w
  ]

  react_all-Guards :
      (since : ℕ) (k : Keepalive) (es : List KeepaliveEvent)
      → Guards since k
      → Guards (confirmed lease_ms since k es) (react_all lease_ms k es)
  unfolding react_all
  react_all-Guards since k [] g = g
  react_all-Guards since k (e ∷ es) g =
      react_all-Guards (confirmed_by since k e) (react lease_ms k e) es (react-Guards since k e g)

  start-Guards : (now : ℕ) → Guards now (start now)
  unfolding start schedule_cycle
  start-Guards now = inr (
      inr (
        record { number = 1; started_at = now },
        record { started = refl; watchdog = refl; current = refl; renews = inl (refl, refl, refl) },
      ))

  not_fired : (k : Keepalive) → k.lost ≡ false → (watchdog_fires none k).lost ≡ false
  unfolding watchdog_fires
  not_fired k held = held

  watch-lost :
      (since now : ℕ) (cycle : Cycle) (k : Keepalive)
      → k.stopped ≡ false
      → k.lost ≡ false
      → Watched since k cycle
      → (react lease_ms k (watchdog_due now)).lost ≡ leb (since + lease_ms * 2) now
  unfolding react due_timer watchdog_deadline
  watch-lost since now cycle k going held w =
      let late = leb (cycle.started_at + lease_ms * 2) now in
      let lost_late : (react lease_ms k (watchdog_due now)).lost ≡ late =
        subst (λ o. (watchdog_fires (due_timer (watchdog_deadline lease_ms) now o) k).lost ≡ late)
          (sym w.watchdog)
          (elim (Bool-cases late) [
            | inl due ↦ rw due (watchdog_fires-lost lease_ms since cycle k going w.current)
            | inr early ↦ rw early (not_fired k held)
          ]) in
      lost_late ∙ ap (λ n. leb (n + lease_ms * 2) now) w.started

  reports :
      (since now : ℕ) (k : Keepalive)
      → k.stopped ≡ false
      → k.lost ≡ false
      → Guards since k
      → (cycle : Cycle) × (k.watchdog_timer ≡ some cycle)
        × (k.cycle_sequence ≡ cycle.number)
        × (cycle.started_at ≡ since)
        × ((react lease_ms k (watchdog_due now)).lost ≡ leb (since + lease_ms * 2) now)
  reports since now k going held (inl over) = cc
  reports since now k going held (inr (inl gone)) = cc
  reports since now k going held (inr (inr (cycle, w))) =
      (cycle, w.watchdog, w.current, w.started, watch-lost since now cycle k going held w)

  -- Whatever has happened to a keepalive since its start, in any order and at any times: unless it has been
  -- stopped or has reported the loss already, its watchdog is set for its current cycle, which started when
  -- the lock was last known to be held, at the start or at the last answer that renewed it; and when
  -- the watchdog's turn comes it reports the loss of the lock exactly from two thirds of the lease after
  -- that time on.
  pub watchdog_reports :
      (started_at now : ℕ) (es : List KeepaliveEvent)
      → (react_all lease_ms (start started_at) es).stopped ≡ false
      → (react_all lease_ms (start started_at) es).lost ≡ false
      → let k = react_all lease_ms (start started_at) es in
        let since = confirmed lease_ms started_at (start started_at) es in
        (cycle : Cycle) × (k.watchdog_timer ≡ some cycle)
        × (k.cycle_sequence ≡ cycle.number)
        × (cycle.started_at ≡ since)
        × ((react lease_ms k (watchdog_due now)).lost ≡ leb (since + lease_ms * 2) now)
  watchdog_reports started_at now es going held =
      reports (confirmed lease_ms started_at (start started_at) es) now
        (react_all lease_ms (start started_at) es) going held
        (react_all-Guards started_at (start started_at) es (start-Guards started_at))
