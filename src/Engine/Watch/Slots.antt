-- ===== src/Engine/Watch/Slots.antt =====
-- rewrite/cmd/engine/stop.go, runWatchedRequest: the slots that a watcher takes and gives back.
use lass_das.Base.{
  ℕ, zero, suc, ◌+◌, Bool, true, false, List, [], ◌∷◌, ◌++◌, ◌≡◌, refl, subst, if◌then◌else◌, ℤ,
  arith,
}
use lass_das.Engine.Turnstile.{entered, took, refused, left, released}
use lass_das.Engine.Watch.{
  Watcher, Round, RunEnd, clock_failed, awaits_approval, awaits_answer, finished, Event, cancelled,
  ticked, looked, ended, Act, slot, child_stopped, child_ended, launched, saved_stop, reported,
  recorded_question, StopReport, without_child, refused_tries, run_report, report_stopped, Next,
  goes_on, returns, Turn, stop_child, deferred, stop_and_leave, hold_stopped, hold_unreadable,
  hold_waiting, ask_slot, decide_round, end_run, select_event, follow, watch_round, watch_rounds,
  read_stop, read_failed,
}

-- How many slots are taken by the acts, and given back.
unfoldable pub taken_by : List Act → ℕ
taken_by [] = 0
taken_by (slot (took id) ∷ acts) = suc (taken_by acts)
taken_by (_ ∷ acts) = taken_by acts

unfoldable pub given_back : List Act → ℕ
given_back [] = 0
given_back (slot released ∷ acts) = suc (given_back acts)
given_back (_ ∷ acts) = given_back acts

-- The slots that a watcher holds: one where its child runs.
abbrev pub held_by : Bool → ℕ
held_by running = if running then 1 else 0

abbrev pub held_after : Next → ℕ
held_after returns = 0
held_after (goes_on w) = held_by w.running

-- What a step does with the slots.
abbrev pub IsBalanced : ℕ → Turn → Type 0
IsBalanced held t = held + taken_by t.acts ≡ given_back t.acts + held_after t.next

taken-append : (xs ys : List Act) → taken_by (xs ++ ys) ≡ taken_by xs + taken_by ys
unfolding taken_by
taken-append [] ys = omega arith
taken-append (slot (took id) ∷ xs) ys = omega (arith, taken-append xs ys)
taken-append (slot (entered id) ∷ xs) ys = taken-append xs ys
taken-append (slot (refused id) ∷ xs) ys = taken-append xs ys
taken-append (slot (left id) ∷ xs) ys = taken-append xs ys
taken-append (slot released ∷ xs) ys = taken-append xs ys
taken-append (child_stopped ∷ xs) ys = taken-append xs ys
taken-append (child_ended ∷ xs) ys = taken-append xs ys
taken-append (launched ∷ xs) ys = taken-append xs ys
taken-append (saved_stop ∷ xs) ys = taken-append xs ys
taken-append (reported ∷ xs) ys = taken-append xs ys
taken-append (recorded_question ∷ xs) ys = taken-append xs ys

given-append : (xs ys : List Act) → given_back (xs ++ ys) ≡ given_back xs + given_back ys
unfolding given_back
given-append [] ys = omega arith
given-append (slot released ∷ xs) ys = omega (arith, given-append xs ys)
given-append (slot (entered id) ∷ xs) ys = given-append xs ys
given-append (slot (refused id) ∷ xs) ys = given-append xs ys
given-append (slot (left id) ∷ xs) ys = given-append xs ys
given-append (slot (took id) ∷ xs) ys = given-append xs ys
given-append (child_stopped ∷ xs) ys = given-append xs ys
given-append (child_ended ∷ xs) ys = given-append xs ys
given-append (launched ∷ xs) ys = given-append xs ys
given-append (saved_stop ∷ xs) ys = given-append xs ys
given-append (reported ∷ xs) ys = given-append xs ys
given-append (recorded_question ∷ xs) ys = given-append xs ys

follow-IsBalanced :
    (held : ℕ) (acts : List Act) (next : Next) (rest : Watcher → Turn)
    → held + taken_by acts ≡ given_back acts + held_after next
    → ((w : Watcher) → IsBalanced (held_by w.running) (rest w))
    → IsBalanced held (follow acts next rest)
unfolding follow
follow-IsBalanced held acts returns rest b h = b
follow-IsBalanced held acts (goes_on w) rest b h =
    omega (arith, taken-append acts (rest w).acts, given-append acts (rest w).acts, b, h w)

refused_tries-free :
    (id : ℤ) (n : ℕ) → (taken_by (refused_tries id n) ≡ 0) × (given_back (refused_tries id n) ≡ 0)
unfolding refused_tries taken_by given_back
refused_tries-free id zero = (refl, refl)
refused_tries-free id (suc n) = refused_tries-free id n

-- The report gives back the slot that it takes.
report_stopped-balanced :
    (id : ℤ) (p : StopReport) → taken_by (report_stopped id p) ≡ given_back (report_stopped id p)
unfolding report_stopped run_report taken_by given_back
report_stopped-balanced id p = ground (
  arith,
  taken-append (refused_tries id p.refusals) (run_report id p),
  given-append (refused_tries id p.refusals) (run_report id p),
  refused_tries-free id p.refusals,
)

hold_stopped-IsBalanced :
    (id : ℤ) (r : Round) (w : Watcher) → IsBalanced (held_by w.running) (hold_stopped id r w)
unfolding hold_stopped stop_child deferred taken_by given_back
hold_stopped-IsBalanced id r w = ground (
  arith,
  taken-append (report_stopped id r.report) (deferred id (without_child w)),
  given-append (report_stopped id r.report) (deferred id (without_child w)),
  report_stopped-balanced id r.report,
)

decide_round-IsBalanced :
    (id : ℤ) (r : Round) (failed : Bool) (w : Watcher)
    → IsBalanced (held_by w.running) (decide_round id r failed w)
unfolding decide_round hold_unreadable hold_waiting ask_slot stop_and_leave stop_child deferred
    taken_by given_back
decide_round-IsBalanced id r failed w = ground (arith, hold_stopped-IsBalanced id r w)

end_run-IsBalanced : (id : ℤ) (e : RunEnd) (w : Watcher) → IsBalanced 1 (end_run id e w)
unfolding end_run deferred stop_child taken_by given_back
end_run-IsBalanced id clock_failed w = refl
end_run-IsBalanced id awaits_approval w = refl
end_run-IsBalanced id awaits_answer w = refl
end_run-IsBalanced id finished w = refl

select_event-IsBalanced :
    (id : ℤ) (events : List Event) (w : Watcher)
    → IsBalanced (held_by w.running) (select_event id events w)
unfolding select_event taken_by given_back deferred stop_child
select_event-IsBalanced id [] w = omega arith
select_event-IsBalanced id (cancelled ∷ events) w = ground arith
select_event-IsBalanced id (ticked ∷ events) w = omega arith
select_event-IsBalanced id (looked ∷ events) w = select_event-IsBalanced id events w
select_event-IsBalanced id (ended e ∷ events) w =
    received w.running (end_run id e w) (select_event id events w) (end_run-IsBalanced id e w)
      (select_event-IsBalanced id events w)
  where
    received :
        (runs : Bool) (end rest : Turn)
        → IsBalanced 1 end
        → IsBalanced (held_by runs) rest
        → IsBalanced (held_by runs) (if runs then end else rest)
    received true end rest b h = b
    received false end rest b h = h

read_stop-running : (r : Round) (w : Watcher) → (read_stop r w).running ≡ w.running
unfolding read_stop
read_stop-running r w = ground arith

deferred-IsBalanced :
    (id : ℤ) (w : Watcher)
    → IsBalanced (held_by w.running) (record { acts = deferred id w; next = returns })
unfolding deferred stop_child taken_by given_back
deferred-IsBalanced id w = ground arith

test-IsBalanced :
    (held : ℕ) (b : Bool) (end rest : Turn)
    → IsBalanced held end
    → IsBalanced held rest
    → IsBalanced held (if b then end else rest)
test-IsBalanced held true end rest b h = b
test-IsBalanced held false end rest b h = h

watch_round-IsBalanced :
    (id : ℤ) (r : Round) (w : Watcher) → IsBalanced (held_by w.running) (watch_round id r w)
unfolding watch_round
watch_round-IsBalanced id r w =
    test-IsBalanced (held_by w.running) r.is_over (record { acts = deferred id w; next = returns })
      (follow decided.acts decided.next (select_event id r.events)) (deferred-IsBalanced id w)
      (follow-IsBalanced (held_by w.running) decided.acts decided.next (select_event id r.events)
        (subst (λ runs. IsBalanced (held_by runs) decided) (read_stop-running r w)
          (decide_round-IsBalanced id r (read_failed r w) (read_stop r w)))
        (select_event-IsBalanced id r.events))
  where
    decided : Turn
    decided = decide_round id r (read_failed r w) (read_stop r w)

-- Whatever a watcher meets, and for however many rounds: it holds one slot where its child runs and none
-- otherwise, and where it returned it has given back every slot that it took.
pub watch_rounds-IsBalanced :
    (id : ℤ) (rounds : List Round) (w : Watcher)
    → IsBalanced (held_by w.running) (watch_rounds id rounds w)
unfolding watch_rounds taken_by given_back
watch_rounds-IsBalanced id [] w = omega arith
watch_rounds-IsBalanced id (r ∷ rounds) w =
    follow-IsBalanced (held_by w.running) (watch_round id r w).acts (watch_round id r w).next
      (watch_rounds id rounds) (watch_round-IsBalanced id r w) (watch_rounds-IsBalanced id rounds)
