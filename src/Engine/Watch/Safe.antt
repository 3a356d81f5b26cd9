-- ===== src/Engine/Watch/Safe.antt =====
-- rewrite/cmd/engine/stop.go, runWatchedRequest: when a child is launched, and until when it runs.
use lass_das.Base.{
  ◌<◌, Bool, true, false, List, [], ◌∷◌, ◌≡◌, inl, inr, if◌then◌else◌, ℤ, arith, Bool-cases,
}
use lass_das.Engine.Watch.{
  Watcher, Round, RunEnd, clock_failed, awaits_approval, awaits_answer, finished, Event, cancelled,
  ticked, looked, ended, Act, Next, goes_on, returns, Turn, hold_stopped, hold_unreadable,
  hold_waiting, ask_slot, decide_round, end_run, select_event, follow, watch_round, watch_rounds,
  read_stop, read_failed,
}

-- A child runs only where no stop is known, no answer is waited for, and fewer than three reads of the
-- stop comments in a row failed.
abbrev pub IsSafe : Watcher → Type 0
IsSafe w = w.running ≡ true → (w.stopped ≡ false) × (w.waiting ≡ false) × (w.unreadable < 3)

abbrev pub IsSafeNext : Next → Type 0
IsSafeNext returns = Unit
IsSafeNext (goes_on w) = IsSafe w

decide_round-IsSafe :
    (id : ℤ) (r : Round) (failed : Bool) (w : Watcher)
    → (w.running ≡ true → (w.waiting ≡ false) × (w.unreadable < 3))
    → (w.stopped ≡ false → failed ≡ false → w.unreadable < 3)
    → IsSafeNext (decide_round id r failed w).next
unfolding decide_round hold_stopped hold_unreadable hold_waiting ask_slot
decide_round-IsSafe id r failed w h f = ground (arith, h, f)

read_stop-kept :
    (r : Round) (w : Watcher)
    → IsSafe w
    → (read_stop r w).running ≡ true
    → ((read_stop r w).waiting ≡ false) × ((read_stop r w).unreadable < 3)
unfolding read_stop
read_stop-kept r w h e = ground (arith, h)

read_stop-fresh :
    (r : Round) (w : Watcher)
    → (read_stop r w).stopped ≡ false
    → read_failed r w ≡ false
    → (read_stop r w).unreadable < 3
unfolding read_stop read_failed
read_stop-fresh r w s f = ground (arith, s, f)

end_run-IsSafe : (id : ℤ) (e : RunEnd) (w : Watcher) → IsSafeNext (end_run id e w).next
unfolding end_run
end_run-IsSafe id clock_failed w = tt
end_run-IsSafe id awaits_approval w = tt
end_run-IsSafe id awaits_answer w = λ e. cc
end_run-IsSafe id finished w = tt

select_event-IsSafe :
    (id : ℤ) (events : List Event) (w : Watcher)
    → IsSafe w
    → IsSafeNext (select_event id events w).next
unfolding select_event
select_event-IsSafe id [] w h = h
select_event-IsSafe id (cancelled ∷ events) w h = tt
select_event-IsSafe id (ticked ∷ events) w h = h
select_event-IsSafe id (looked ∷ events) w h = select_event-IsSafe id events w h
select_event-IsSafe id (ended e ∷ events) w h =
    received w.running (end_run id e w) (select_event id events w) (end_run-IsSafe id e w)
      (select_event-IsSafe id events w h)
  where
    received :
        (runs : Bool) (end rest : Turn)
        → IsSafeNext end.next
        → IsSafeNext rest.next
        → IsSafeNext (if runs then end else rest).next
    received true end rest s s' = s
    received false end rest s s' = s'

follow-IsSafe :
    (acts : List Act) (next : Next) (rest : Watcher → Turn)
    → IsSafeNext next
    → ((w : Watcher) → IsSafe w → IsSafeNext (rest w).next)
    → IsSafeNext (follow acts next rest).next
unfolding follow
follow-IsSafe acts returns rest s h = tt
follow-IsSafe acts (goes_on w) rest s h = h w s

watch_round-IsSafe :
    (id : ℤ) (r : Round) (w : Watcher) → IsSafe w → IsSafeNext (watch_round id r w).next
unfolding watch_round
watch_round-IsSafe id r w h = elim (Bool-cases r.is_over) [
  | inl over ↦ rw over tt
  | inr on_time ↦ rw on_time (
      follow-IsSafe decided.acts decided.next (select_event id r.events)
        (decide_round-IsSafe id r (read_failed r w) (read_stop r w) (read_stop-kept r w h)
          (read_stop-fresh r w))
        (select_event-IsSafe id r.events))
]
  where
    decided : Turn
    decided = decide_round id r (read_failed r w) (read_stop r w)

-- Whatever a watcher meets, and for however many rounds: while its child runs it knows of no stop and waits
-- for no answer, and fewer than three reads of the stop comments in a row failed.
pub watch_rounds-IsSafe :
    (id : ℤ) (rounds : List Round) (w : Watcher)
    → IsSafe w
    → IsSafeNext (watch_rounds id rounds w).next
unfolding watch_rounds
watch_rounds-IsSafe id [] w h = h
watch_rounds-IsSafe id (r ∷ rounds) w h =
    follow-IsSafe (watch_round id r w).acts (watch_round id r w).next (watch_rounds id rounds)
      (watch_round-IsSafe id r w h) (watch_rounds-IsSafe id rounds)
