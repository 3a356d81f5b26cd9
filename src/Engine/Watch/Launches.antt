-- ===== src/Engine/Watch/Launches.antt =====
-- rewrite/cmd/engine/stop.go, runWatchedRequest: what is read before a child is launched.
use lass_das.Base.{
  Bool, true, false, ◌||◌, List, [], ◌∷◌, ◌++◌, ◌≡◌, inl, inr, refl, sym, ◌∙◌, if◌then◌else◌, ℤ, ℕ,
  zero, suc, arith, Bool-cases, any,
}
use lass_das.Engine.Watch.{
  Watcher, Round, quiet, RunEnd, clock_failed, awaits_approval, awaits_answer, finished, Event,
  cancelled, ticked, looked, ended, Act, slot, child_stopped, child_ended, launched, saved_stop,
  reported, recorded_question, StopReport, without_child, refused_tries, run_report, report_stopped,
  Next, goes_on, returns, Turn, stop_child, deferred, stop_and_leave, hold_stopped, hold_unreadable,
  hold_waiting, ask_slot, decide_round, end_run, select_event, follow, watch_round, read_stop,
  read_failed, is_held_for_credit,
}

is_launch : Act → Bool
is_launch launched = true
is_launch _ = false

unfoldable pub launches_child : List Act → Bool
unfolding is_launch
launches_child acts = any is_launch acts

pub launches-append :
    (xs ys : List Act) → launches_child (xs ++ ys) ≡ (launches_child xs || launches_child ys)
unfolding launches_child
launches-append [] ys = refl
launches-append (launched ∷ xs) ys = refl
launches-append (slot move ∷ xs) ys = launches-append xs ys
launches-append (child_stopped ∷ xs) ys = launches-append xs ys
launches-append (child_ended ∷ xs) ys = launches-append xs ys
launches-append (saved_stop ∷ xs) ys = launches-append xs ys
launches-append (reported ∷ xs) ys = launches-append xs ys
launches-append (recorded_question ∷ xs) ys = launches-append xs ys

-- What must hold where a round launches a child.
pub record MayLaunch (r : Round) (w : Watcher) : Type 0 where
  pub no_stop : w.stopped ≡ false
  pub read : r.reading ≡ quiet
  pub identity : r.has_identity ≡ true
  pub no_question : w.waiting ≡ false
  pub idle : w.running ≡ false
  pub credit : is_held_for_credit r ≡ false
  pub free : r.is_free ≡ true

refused_tries-launches : (id : ℤ) (n : ℕ) → launches_child (refused_tries id n) ≡ false
unfolding refused_tries launches_child
refused_tries-launches id zero = refl
refused_tries-launches id (suc n) = refused_tries-launches id n

-- The report is no launch of the request's own run.
report_stopped-launches : (id : ℤ) (p : StopReport) → launches_child (report_stopped id p) ≡ false
unfolding report_stopped run_report launches_child
report_stopped-launches id p = ground (
  arith,
  launches-append (refused_tries id p.refusals) (run_report id p),
  refused_tries-launches id p.refusals,
)

hold_stopped-launches :
    (id : ℤ) (r : Round) (w : Watcher) → launches_child (hold_stopped id r w).acts ≡ false
unfolding hold_stopped deferred stop_child launches_child
hold_stopped-launches id r w = ground (
  arith,
  launches-append (report_stopped id r.report) (deferred id (without_child w)),
  report_stopped-launches id r.report,
)

decide_round-launches :
    (id : ℤ) (r : Round) (failed : Bool) (w : Watcher)
    → launches_child (decide_round id r failed w).acts ≡ true
    → (w.stopped ≡ false)
      × (failed ≡ false)
      × (w.waiting ≡ false)
      × (w.running ≡ false)
      × (is_held_for_credit r ≡ false)
      × (r.is_free ≡ true)
unfolding decide_round hold_unreadable hold_waiting ask_slot stop_and_leave stop_child deferred
    launches_child
decide_round-launches id r failed w e = ground (arith, e, hold_stopped-launches id r w)

read_stop-quiet :
    (r : Round) (w : Watcher)
    → (read_stop r w).stopped ≡ false
    → read_failed r w ≡ false
    → (w.stopped ≡ false) × (r.reading ≡ quiet) × (r.has_identity ≡ true)
unfolding read_stop read_failed
read_stop-quiet r w s f = ground (arith, s, f)

read_stop-same :
    (r : Round) (w : Watcher)
    → ((read_stop r w).waiting ≡ w.waiting) × ((read_stop r w).running ≡ w.running)
unfolding read_stop
read_stop-same r w = ground arith

-- Nothing is launched while the watcher waits in its select, or where it returns.
deferred-launches : (id : ℤ) (w : Watcher) → launches_child (deferred id w) ≡ false
unfolding deferred stop_child launches_child
deferred-launches id w = ground arith

end_run-launches :
    (id : ℤ) (e : RunEnd) (w : Watcher) → launches_child (end_run id e w).acts ≡ false
unfolding end_run deferred stop_child launches_child
end_run-launches id clock_failed w = refl
end_run-launches id awaits_approval w = refl
end_run-launches id awaits_answer w = refl
end_run-launches id finished w = refl

select_event-launches :
    (id : ℤ) (events : List Event) (w : Watcher)
    → launches_child (select_event id events w).acts ≡ false
unfolding select_event launches_child
select_event-launches id [] w = refl
select_event-launches id (cancelled ∷ events) w = deferred-launches id w
select_event-launches id (ticked ∷ events) w = refl
select_event-launches id (looked ∷ events) w = select_event-launches id events w
select_event-launches id (ended e ∷ events) w =
    received w.running (end_run id e w) (select_event id events w) (end_run-launches id e w)
      (select_event-launches id events w)
  where
    received :
        (runs : Bool) (end rest : Turn)
        → launches_child end.acts ≡ false
        → launches_child rest.acts ≡ false
        → launches_child (if runs then end else rest).acts ≡ false
    received true end rest s s' = s
    received false end rest s s' = s'

follow-launches :
    (acts : List Act) (next : Next) (rest : Watcher → Turn)
    → ((w : Watcher) → launches_child (rest w).acts ≡ false)
    → launches_child (follow acts next rest).acts ≡ launches_child acts
unfolding follow
follow-launches acts returns rest h = refl
follow-launches acts (goes_on w) rest h = launches-append acts (rest w).acts ∙ ground (arith, h w)

-- A round launches a child only where, in this very round, the stop comments were read and held no stop,
-- with someone known who could write one; no stop was known before, no answer is waited for, no child
-- runs, the budget is not short, and a slot was free.
pub watch_round-MayLaunch :
    (id : ℤ) (r : Round) (w : Watcher)
    → launches_child (watch_round id r w).acts ≡ true
    → MayLaunch r w
unfolding watch_round
watch_round-MayLaunch id r w e = elim (Bool-cases r.is_over) [
  | inl over ↦ cc (rw (over, watch_round) at e, deferred-launches id w)
  | inr on_time ↦ allowed (follow_free ∙ rw (on_time, watch_round) at e)
]
  where
    decided : Turn
    decided = decide_round id r (read_failed r w) (read_stop r w)

    follow_free :
        launches_child decided.acts
        ≡ launches_child (follow decided.acts decided.next (select_event id r.events)).acts
    follow_free = sym (
        follow-launches decided.acts decided.next (select_event id r.events)
          (select_event-launches id r.events))

    allowed : launches_child decided.acts ≡ true → MayLaunch r w
    allowed l =
        let (s, f, q, i, c, p) = decide_round-launches id r (read_failed r w) (read_stop r w) l in
        let (stopped, reading, known) = read_stop-quiet r w s f in
        let (waiting, running) = read_stop-same r w in
        record {
          no_stop = stopped;
          read = reading;
          identity = known;
          no_question = sym waiting ∙ q;
          idle = sym running ∙ i;
          credit = c;
          free = p;
        }
