-- ===== src/Engine/Watch.antt =====
-- rewrite/cmd/engine/stop.go, runWatchedRequest: the loop of one watcher, with the report of
-- rewrite/cmd/engine/stop_report.go on a request that was stopped. What it meets in a round is a `Round`; what it does
-- is a list of acts, its calls of the turnstile among them as the moves of Engine/Turnstile. Notices,
-- announcements and the log are left out.
pub mod Safe
pub mod Launches
pub mod Held
pub mod Stopped
pub mod Slots
use lass_das.Base.{
  ℕ, zero, suc, Bool, true, false, not, ◌&&◌, ◌||◌, List, [], ◌∷◌, ◌++◌, if◌then◌else◌, ltb, ℤ,
}
use lass_das.Engine.Turnstile.{Move, took, refused, left, released}

-- `running` is `result != nil`, `stopped` is `instruction != nil`.
pub record Watcher : Type 0 where
  pub running : Bool
  pub stopped : Bool
  pub waiting : Bool
  pub unreadable : ℕ
  pub waited : Bool

-- What readStopComments comes to.
pub data Reading : Type 0 where
  quiet stop_read unanswered : Reading

-- How a run ends: without its time confirmed, for an approval, for the requester's answer, or otherwise.
pub data RunEnd : Type 0 where
  clock_failed awaits_approval awaits_answer finished : RunEnd

-- What the select receives.
pub data Event : Type 0 where
  cancelled ticked looked : Event
  ended : RunEnd → Event

-- What reportStoppedRequest meets: whether a role is configured to report; whether it, and the saved
-- stop that is read back, authorise a report; whether one was delivered, or that cannot be read; how
-- often the turnstile refuses, and whether the context ends before it grants; and whether all that
-- the report is written from can be read and stored.
pub record StopReport : Type 0 where
  pub is_configured : Bool
  pub may_report : Bool
  pub is_done : Bool
  pub refusals : ℕ
  pub is_granted : Bool
  pub is_prepared : Bool

pub record Round : Type 0 where
  pub is_over : Bool
  pub reading : Reading
  pub has_identity : Bool
  pub credit_known : Bool
  pub credit_low : Bool
  pub stop_saved : Bool
  pub report : StopReport
  pub question_recorded : Bool
  pub is_free : Bool
  pub work_begins : Bool
  pub events : List Event

-- `launched` is the request's own run, `reported` that of the role that reports a stop.
pub data Act : Type 0 where
  slot : Move → Act
  child_stopped child_ended launched saved_stop reported recorded_question : Act

pub data Next : Type 0 where
  goes_on : Watcher → Next
  returns : Next

abbrev pub start : Watcher
start = record { running = false; stopped = false; waiting = false; unreadable = 0; waited = false }

abbrev pub tolerated_unreadable_ticks : ℕ
tolerated_unreadable_ticks = 3

-- `stopChild`.
unfoldable pub stop_child : Watcher → List Act
stop_child w = if w.running then child_stopped ∷ slot released ∷ [] else []

-- A return runs what was deferred: the line is left, then the child is stopped.
unfoldable pub deferred : ℤ → Watcher → List Act
unfolding stop_child
deferred id w = slot (left id) ∷ stop_child w

unfoldable pub stop_and_leave : ℤ → Watcher → List Act
unfolding stop_child
stop_and_leave id w = stop_child w ++ slot (left id) ∷ []

abbrev pub without_child : Watcher → Watcher
without_child w = record w { running = false }

-- The read of the stop comments, where none was read before.
unfoldable pub read_stop : Round → Watcher → Watcher
read_stop r w = if w.stopped then w else elim r.reading [
  | quiet ↦ if r.has_identity then record w { unreadable = 0 } else w
  | stop_read ↦ record w { stopped = true; unreadable = if r.has_identity then 0 else w.unreadable }
  | unanswered ↦ w
]

-- `err != nil` behind that read.
unfoldable pub read_failed : Round → Watcher → Bool
read_failed r w = not w.stopped && elim r.reading [
  | quiet ↦ not r.has_identity
  | stop_read ↦ not r.has_identity
  | unanswered ↦ true
]

-- The model budget is short.
unfoldable pub is_held_for_credit : Round → Bool
is_held_for_credit r = r.credit_known && r.credit_low

-- One step of a round: what is done, and what goes on.
pub record Turn : Type 0 where
  pub acts : List Act
  pub next : Next

abbrev pub turn : List Act → Next → Turn
turn acts next = record { acts = acts; next = next }

-- The tries of `acquire` that do not get a slot.
unfoldable pub refused_tries : ℤ → ℕ → List Act
refused_tries id zero = []
refused_tries id (suc n) = slot (refused id) ∷ refused_tries id n

-- The end of `acquire`: with a slot, which is released behind the report, or out of the line.
unfoldable pub run_report : ℤ → StopReport → List Act
run_report id p =
    if not p.is_granted
    then slot (refused id) ∷ slot (left id) ∷ []
    else if p.is_prepared
    then slot (took id) ∷ reported ∷ slot released ∷ []
    else slot (took id) ∷ slot released ∷ []

-- `reportStoppedRequest`.
unfoldable pub report_stopped : ℤ → StopReport → List Act
unfolding refused_tries run_report
report_stopped id p =
    if not p.is_configured || (not p.may_report || p.is_done)
    then []
    else refused_tries id p.refusals ++ run_report id p

-- A stop that was read.
unfoldable pub hold_stopped : ℤ → Round → Watcher → Turn
unfolding stop_child report_stopped deferred
hold_stopped id r w =
    if r.stop_saved
    then turn
        (stop_child w ++ saved_stop ∷ report_stopped id r.report ++ deferred id (without_child w))
        returns
    else turn (stop_child w ++ slot (left id) ∷ []) (goes_on (without_child w))

-- Stop comments that could not be read.
unfoldable pub hold_unreadable : ℤ → Watcher → Turn
unfolding stop_and_leave
hold_unreadable id w =
    if ltb (suc w.unreadable) tolerated_unreadable_ticks
    then turn [] (goes_on (record w { unreadable = suc w.unreadable }))
    else turn (stop_and_leave id w)
        (goes_on (record w { running = false; unreadable = suc w.unreadable }))

-- A question was put to the requester.
unfoldable pub hold_waiting : ℤ → Round → Watcher → Turn
unfolding deferred
hold_waiting id r w =
    if r.question_recorded
    then turn (recorded_question ∷ deferred id w) returns
    else turn (slot (left id) ∷ []) (goes_on w)

-- A slot is asked for.
unfoldable pub ask_slot : ℤ → Round → Watcher → Turn
unfolding deferred
ask_slot id r w =
    if not r.is_free
    then turn (slot (refused id) ∷ []) (goes_on (record w { waited = true }))
    else if r.work_begins
    then turn (slot (took id) ∷ launched ∷ []) (goes_on (record w { running = true }))
    else turn (slot (took id) ∷ slot released ∷ deferred id w) returns

-- The body of the loop before the select, over what was read.
unfoldable pub decide_round : ℤ → Round → Bool → Watcher → Turn
unfolding hold_stopped hold_unreadable hold_waiting stop_and_leave is_held_for_credit ask_slot
decide_round id r failed w =
    if w.stopped
    then hold_stopped id r w
    else if failed
    then hold_unreadable id w
    else if w.waiting
    then hold_waiting id r w
    else if is_held_for_credit r
    then turn (stop_and_leave id w) (goes_on (without_child w))
    else if not w.running
    then ask_slot id r w
    else turn [] (goes_on w)

-- A run that ended.
unfoldable pub end_run : ℤ → RunEnd → Watcher → Turn
unfolding deferred
end_run id awaits_answer w =
    turn (child_ended ∷ slot released ∷ []) (goes_on (record w { running = false; waiting = true }))
end_run id clock_failed w =
    turn (child_ended ∷ slot released ∷ deferred id (without_child w)) returns
end_run id awaits_approval w =
    turn (child_ended ∷ slot released ∷ deferred id (without_child w)) returns
end_run id finished w = turn (child_ended ∷ slot released ∷ deferred id (without_child w)) returns

-- The select: nothing is received from a child that is not there.
unfoldable pub select_event : ℤ → List Event → Watcher → Turn
unfolding deferred end_run
select_event id [] w = turn [] (goes_on w)
select_event id (cancelled ∷ events) w = turn (deferred id w) returns
select_event id (ticked ∷ events) w = turn [] (goes_on w)
select_event id (looked ∷ events) w = select_event id events w
select_event id (ended e ∷ events) w =
    let rest = select_event id events w in if w.running then end_run id e w else rest

-- One step and, where it does not return, the next.
unfoldable pub follow : List Act → Next → (Watcher → Turn) → Turn
follow acts returns rest = turn acts returns
follow acts (goes_on w) rest = turn (acts ++ (rest w).acts) (rest w).next

-- A round of the loop.
unfoldable pub watch_round : ℤ → Round → Watcher → Turn
unfolding deferred follow select_event decide_round read_stop read_failed
watch_round id r w =
    let t = decide_round id r (read_failed r w) (read_stop r w) in
    if r.is_over
    then turn (deferred id w) returns
    else follow t.acts t.next (select_event id r.events)

-- `runWatchedRequest`, for the rounds that it goes through.
unfoldable pub watch_rounds : ℤ → List Round → Watcher → Turn
unfolding watch_round follow
watch_rounds id [] w = turn [] (goes_on w)
watch_rounds id (r ∷ rounds) w =
    follow (watch_round id r w).acts (watch_round id r w).next (watch_rounds id rounds)
