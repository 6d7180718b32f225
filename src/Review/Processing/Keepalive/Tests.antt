-- ===== src/Review/Processing/Keepalive/Tests.antt =====
-- A keepalive that renews the lock once, with a lease of 30 seconds.
use repo_mentor.Prelude.{List, [], false, leb, refl, some, true, ◌*◌, ◌+◌, ◌∷◌, ◌≡◌}
use repo_mentor.Review.Processing.Keepalive.{
  answer, watchdog_due, renewal_due, KeepaliveEvent, Cycle, start, react, react_all,
  renewal_deadline, due_timer, schedule_cycle, watchdog_deadline, renewal_fires, watchdog_fires,
  lose_lock, send_renewal, renewal_answered, renewed_by,
}
use repo_mentor.Review.Processing.Keepalive.Watch.{confirmed, watchdog_reports}

keepalive : Unit {0}
unfolding start schedule_cycle renewal_deadline watchdog_deadline lose_lock send_renewal
    renewal_fires watchdog_fires renewed_by renewal_answered react react_all due_timer
keepalive = tt

abbrev renewed_once : List KeepaliveEvent
renewed_once = renewal_due 30000 ∷ answer 30300 true ∷ []

runs_on : (react_all 30000 (start 0) renewed_once).stopped ≡ false
unfolding keepalive
runs_on = refl

holds_on : (react_all 30000 (start 0) renewed_once).lost ≡ false
unfolding keepalive
holds_on = refl

second_cycle : (react_all 30000 (start 0) renewed_once).cycle_sequence ≡ 2
unfolding keepalive
second_cycle = refl

lost_late : (react_all 30000 (start 0) (renewal_due 30000 ∷ answer 60000 true ∷ [])).lost ≡ true
unfolding keepalive
lost_late = refl

confirmed_late : confirmed 30000 0 (start 0) renewed_once ≡ 30300
unfolding keepalive
confirmed_late = refl

watchdog_reports_example :
    let k = react_all 30000 (start 0) renewed_once in
    let since = confirmed 30000 0 (start 0) renewed_once in
    (cycle : Cycle) × (k.watchdog_timer ≡ some cycle)
    × (k.cycle_sequence ≡ cycle.number)
    × (cycle.started_at ≡ since)
    × ((react 30000 k (watchdog_due 90300)).lost ≡ leb (since + 30000 * 2) 90300)
watchdog_reports_example = watchdog_reports 30000 0 90300 renewed_once runs_on holds_on
