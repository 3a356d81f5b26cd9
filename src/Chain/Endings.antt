-- ===== src/Chain/Endings.antt =====
-- stages.go and chain.go: how the latest launch ended, and how many launches in a row did not end cleanly.
pub mod Tallied
pub mod Kinds
pub mod Words
use Prim.Native.String.{len}
use text.Mathlib.Text.{starts_with}
use lass_das.Base.{
  ℕ, zero, suc, ◌+◌, ◌-◌, String, ◌==◌, Bool, true, false, not, ◌&&◌, ◌||◌, Option, none, some,
  List, [], ◌∷◌, ◌++◌, if◌then◌else◌, ltb, leb, ℤ, pos, max_int, take, drop,
}
use lass_das.Chain.Types.{Result, no_result, State, Assignment, Time}
use lass_das.Chain.Refusals.{approval_failure_reason}
use lass_das.Chain.Runs.{StageRun, stage_runs}

-- How many launches ended in each way.
pub record EndingKinds : Type 0 where
  pub forced : ℕ
  pub stopped : ℕ
  pub timed_out : ℕ
  pub no_model : ℕ
  pub errors : ℕ

pub record Ending : Type 0 where
  pub approval_failure : String
  pub error : String
  pub role : String
  pub attempt : ℕ
  pub interrupted : Bool
  pub forced : Bool
  pub timed_out : Bool
  pub no_model : Bool
  pub repeated_failures : ℤ
  pub activity : String
  pub kinds : EndingKinds

abbrev pub no_kinds : EndingKinds
no_kinds = record { forced = 0; stopped = 0; timed_out = 0; no_model = 0; errors = 0 }

abbrev pub ending_for : String → Ending
ending_for role = record {
  approval_failure = "";
  error = "";
  role = role;
  attempt = 0;
  interrupted = false;
  forced = false;
  timed_out = false;
  no_model = false;
  repeated_failures = pos 0;
  activity = "";
  kinds = no_kinds;
}

-- `context.DeadlineExceeded.Error()` and the text of process.go for a model that could not be selected.
abbrev pub deadline_exceeded : String
deadline_exceeded = "context deadline exceeded"

abbrev pub selection_failure : String
selection_failure = "Selecting a current model: "

-- One record of the loop of `endingOf`.
unfoldable pub read_record : Ending → Result → Ending
read_record e r =
    let reason = approval_failure_reason r in
    record e {
      approval_failure = if reason == "" then e.approval_failure else reason;
      error = if reason == "" then e.error else r.error;
      interrupted = e.interrupted || r.interrupted;
      forced = e.forced || r.forced;
      timed_out =
          e.timed_out || (not (r.speaker == "runtime") && starts_with r.error deadline_exceeded);
      no_model =
          e.no_model || (not (r.speaker == "runtime") && starts_with r.error selection_failure);
      activity = if r.activity == "" then e.activity else r.activity;
      repeated_failures = max_int e.repeated_failures r.repeated_failures;
    }

unfoldable pub read_records : Ending → List Result → Ending
unfolding read_record
read_records e [] = e
read_records e (r ∷ rest) = read_records (read_record e r) rest

unfoldable pub ending_of : String → List Result → Ending
unfolding read_records
ending_of role records = read_records (ending_for role) records

-- The launch is counted by the first kind that holds of it.
unfoldable pub add : EndingKinds → Ending → EndingKinds
add k e =
    if e.forced
    then record k { forced = suc k.forced }
    else if e.interrupted
    then record k { stopped = suc k.stopped }
    else if e.timed_out
    then record k { timed_out = suc k.timed_out }
    else if e.no_model
    then record k { no_model = suc k.no_model }
    else record k { errors = suc k.errors }

-- `s.History[from:to]`.
abbrev pub records_between : ℕ → ℕ → List Result → List Result
records_between from to history = take (to - from) (drop from history)

unfoldable pub launch_stopped : List Result → Bool
launch_stopped [] = false
launch_stopped (r ∷ rest) =
    if r.interrupted && not (r.speaker == "runtime") then true else launch_stopped rest

-- The run is only the note that a restart left for the launch before it.
unfoldable pub is_stop_note : List Result → StageRun → StageRun → Bool
is_stop_note history previous run =
    (previous.role == run.role)
    && (not (ltb 1 (run.to - run.from) || ltb (run.to - run.from) 1)
        && (elim (drop run.from history) [
          | [] ↦ false
          | note ∷ _ ↦
              (note.speaker == "runtime")
              && (note.interrupted
                  && (not note.forced
                      && launch_stopped (records_between previous.from previous.to history)))
        ]))

-- `launches` of `LastEnding`, the latest first.
unfoldable pub join_notes : List Result → List StageRun → List StageRun → List StageRun
join_notes history launches [] = launches
join_notes history [] (run ∷ runs) = join_notes history (run ∷ []) runs
join_notes history (previous ∷ launches) (run ∷ runs) =
    join_notes history
      (if is_stop_note history previous run
        then record previous { to = run.to; satisfied = false } ∷ launches
        else run ∷ previous ∷ launches)
      runs

-- The launches of the role at the latest end that did not end cleanly.
unfoldable pub count_attempts : List Result → String → Ending → List StageRun → Ending
unfolding ending_of add
count_attempts history role e [] = e
count_attempts history role e (run ∷ earlier) =
    let counted = record e {
      attempt = suc e.attempt;
      kinds = add e.kinds (ending_of role (records_between run.from run.to history));
    } in
    let more = count_attempts history role counted earlier in
    if (run.role == role) && not run.satisfied then more else e

-- `LastEnding` over the launches, the latest first.
unfoldable pub ending_at : List Result → List StageRun → Option Ending
unfolding count_attempts
ending_at history [] = none
ending_at history (last ∷ earlier) =
    if last.satisfied
    then none
    else some (
        count_attempts history last.role
          (ending_of last.role (records_between last.from last.to history)) (last ∷ earlier))

unfoldable pub last_ending : State → Option Ending
unfolding ending_at
last_ending s = ending_at s.history (join_notes s.history [] (stage_runs s))

-- The error of the note left for an action that a restart cut short.
abbrev pub pending_stopped : String
pending_stopped =
    "The process stopped while this action was pending. Available reports may be partial, and the action may have taken effect. Inspect the working tree and external state before repeating it."

-- A launch of the role that began at `since` or later left a record.
unfoldable pub saved_since : List Result → String → Time → Bool
saved_since [] role since = false
saved_since (r ∷ rest) role since =
    ((r.role == role) && not (ltb r.started_at since)) || saved_since rest role since

-- The pending launch left nothing: the runtime itself was killed.
unfoldable pub was_forced : State → Assignment → Bool
unfolding saved_since
was_forced s a = not (leb s.pending_since 0) && not (saved_since s.history a.role s.pending_since)

-- A pending action is read as the note that the next start writes for it.
unfoldable pub with_pending_note : State → State
unfolding was_forced
with_pending_note s = elim s.pending [
  | none ↦ s
  | some a ↦ record s {
    history =
        s.history
        ++ record no_result {
          role = a.role;
          speaker = "runtime";
          interrupted = true;
          forced = was_forced s a;
          error = pending_stopped;
          started_at = s.pending_since;
        }
          ∷ [];
  }
]

-- Notes for actions that began before the reply belong before it.
unfoldable pub skip_notes : Time → List Result → List Result
skip_notes replied [] = []
skip_notes replied (r ∷ rest) =
    if (r.speaker == "runtime") && (r.interrupted && ltb r.started_at replied)
    then skip_notes replied rest
    else r ∷ rest

-- The requester's latest comment with the history behind it.
unfoldable pub latest_reply : List Result → Option (Result × List Result)
latest_reply [] = none
latest_reply (r ∷ rest) = elim (latest_reply rest) [
  | some later ↦ some later
  | none ↦ if r.speaker == "requester" then some (r, rest) else none
]

unfoldable pub since_latest_reply : State → State
unfolding latest_reply skip_notes
since_latest_reply s = elim (latest_reply s.history) [
  | none ↦ s
  | some (reply, later) ↦ record s { history = skip_notes reply.finished_at later }
]

-- The launches that the runtime stopped itself are passed over.
unfoldable pub passing_over : Option Ending → Option Ending × ℕ
passing_over none = (none, 0)
passing_over (some e) = (some e, e.attempt - e.kinds.stopped)

unfoldable pub failed_in_a_row : State → Option Ending × ℕ
unfolding passing_over
failed_in_a_row s = passing_over (last_ending (since_latest_reply (with_pending_note s)))
