-- ===== src/Engine/Watch/Stopped.antt =====
-- rewrite/cmd/engine/stop.go, runWatchedRequest: a stop that was read, and the report on it.
use lass_das.Base.{
  Bool, true, false, List, [], ◌∷◌, ◌≡◌, ◌⊎◌, inl, inr, refl, sym, subst, if◌then◌else◌, ℤ, arith,
  Bool-cases,
}
use lass_das.Engine.Watch.{
  Watcher, Round, stop_read, Event, cancelled, ticked, looked, ended, Act, Next, goes_on, returns,
  Turn, stop_child, without_child, deferred, hold_stopped, decide_round, end_run, select_event,
  watch_round, watch_rounds, read_stop, read_failed,
}
use lass_das.Engine.Watch.Launches.{launches_child}
use lass_das.Engine.Watch.Held.{
  only_reports, quiet_acts, is_quiet, quiet-only_reports, only_reports-launches, IsHeld,
  follow-IsHeld, deferred-quiet, report_stopped-only,
}

abbrev pub IsStoppedNext : Next → Type 0
IsStoppedNext returns = Unit
IsStoppedNext (goes_on w) = (w.stopped ≡ true) × (w.running ≡ false)

-- A stop is known, or is read in this round.
abbrev pub KnowsStop : Round → Watcher → Type 0
KnowsStop r w = (w.stopped ≡ true) ⊎ (r.reading ≡ stop_read)

read_stop-stopped : (r : Round) (w : Watcher) → KnowsStop r w → (read_stop r w).stopped ≡ true
unfolding read_stop
read_stop-stopped r w (inl known) = ground (arith, known)
read_stop-stopped r w (inr read) = ground (arith, read)

hold_stopped-IsHeld :
    (id : ℤ) (r : Round) (w : Watcher)
    → w.stopped ≡ true
    → IsHeld (hold_stopped id r w).acts (hold_stopped id r w).next
unfolding hold_stopped stop_child quiet_acts is_quiet only_reports
hold_stopped-IsHeld id r w s = ground (
  arith,
  s,
  report_stopped-only id r.report (deferred id (without_child w))
      (deferred-quiet id (without_child w)),
)

decide_round-stopped :
    (id : ℤ) (r : Round) (failed : Bool) (w : Watcher)
    → w.stopped ≡ true
    → IsHeld (decide_round id r failed w).acts (decide_round id r failed w).next
unfolding decide_round
decide_round-stopped id r failed w s =
    subst (λ (t : Turn). IsHeld t.acts t.next) (sym same) (hold_stopped-IsHeld id r w s)
  where
    same : decide_round id r failed w ≡ hold_stopped id r w
    same = ground (arith, s)

select_event-stopped :
    (id : ℤ) (events : List Event) (w : Watcher)
    → (w.stopped ≡ true) × (w.running ≡ false)
    → IsHeld (select_event id events w).acts (select_event id events w).next
unfolding select_event quiet_acts is_quiet
select_event-stopped id [] w h = (refl, h.0, h.1)
select_event-stopped id (cancelled ∷ events) w h =
    quiet-only_reports false false (deferred id w) (deferred-quiet id w)
select_event-stopped id (ticked ∷ events) w h = (refl, h.0, h.1)
select_event-stopped id (looked ∷ events) w h = select_event-stopped id events w h
select_event-stopped id (ended e ∷ events) w h =
    idle w.running (end_run id e w) (select_event id events w) h.1
      (select_event-stopped id events w h)
  where
    idle :
        (runs : Bool) (end rest : Turn)
        → runs ≡ false
        → IsHeld rest.acts rest.next
        → IsHeld (if runs then end else rest).acts (if runs then end else rest).next
    idle true end rest e s = cc
    idle false end rest e s = s

watch_round-stopped :
    (id : ℤ) (r : Round) (w : Watcher)
    → KnowsStop r w
    → IsHeld (watch_round id r w).acts (watch_round id r w).next
unfolding watch_round
watch_round-stopped id r w k = elim (Bool-cases r.is_over) [
  | inl over ↦ rw over (quiet-only_reports false false (deferred id w) (deferred-quiet id w))
  | inr on_time ↦ rw on_time (
      follow-IsHeld decided.acts decided.next (select_event id r.events)
        (decide_round-stopped id r (read_failed r w) (read_stop r w) (read_stop-stopped r w k))
        (select_event-stopped id r.events))
]
  where
    decided : Turn
    decided = decide_round id r (read_failed r w) (read_stop r w)

rounds-stopped :
    (id : ℤ) (rounds : List Round) (w : Watcher)
    → (w.stopped ≡ true) × (w.running ≡ false)
    → IsHeld (watch_rounds id rounds w).acts (watch_rounds id rounds w).next
unfolding watch_rounds quiet_acts
rounds-stopped id [] w h = (refl, h.0, h.1)
rounds-stopped id (r ∷ rounds) w h =
    follow-IsHeld (watch_round id r w).acts (watch_round id r w).next (watch_rounds id rounds)
      (watch_round-stopped id r w (inl h.0)) (rounds-stopped id rounds)

IsHeld-stopped :
    (acts : List Act) (next : Next)
    → IsHeld acts next
    → IsStoppedNext next × (launches_child acts ≡ false) × (only_reports false false acts ≡ true)
IsHeld-stopped acts returns h = (tt, only_reports-launches false false acts h, h)
IsHeld-stopped acts (goes_on w) h =
    let only = quiet-only_reports false false acts h.0 in
    ((h.1, h.2), only_reports-launches false false acts only, only)

-- From the round on in which a stop is read, or known already, however long the watcher goes on: the
-- child does not run behind any round, no run of the request is launched any more and no question is
-- recorded; only behind the save of the stop a slot is taken, and the role that reports the stop is
-- run, at most once.
pub watch_rounds-stopped :
    (id : ℤ) (r : Round) (rounds : List Round) (w : Watcher)
    → KnowsStop r w
    → IsStoppedNext (watch_rounds id (r ∷ rounds) w).next
      × (launches_child (watch_rounds id (r ∷ rounds) w).acts ≡ false)
      × (only_reports false false (watch_rounds id (r ∷ rounds) w).acts ≡ true)
unfolding watch_rounds
watch_rounds-stopped id r rounds w k = IsHeld-stopped _ _ (
    follow-IsHeld (watch_round id r w).acts (watch_round id r w).next (watch_rounds id rounds)
      (watch_round-stopped id r w k) (rounds-stopped id rounds))
