-- ===== src/Chain/Records.antt =====
-- stages.go and chain.go: what the runtime records of a launch that returned, and of one cut short.
use Prim.Native.Char.{code}
use lass_das.Base.{
  ◌<>◌, ℕ, ◌-◌, String, ◌==◌, Bool, true, false, not, ◌&&◌, ◌||◌, Option, none, some, List, [], ◌∷◌,
  if◌then◌else◌, ltb, is_empty, is_some, ◌*◌, pos, is_zero, lookup_or,
}
use lass_das.Chain.Types.{Result, no_result, Assignment, Stage, Workflow, State, Time}
use lass_das.Chain.Refusals.{approval_failure_record, approval_receipt_prefix}
use lass_das.Chain.Runs.{stage_at, stages_of}
use lass_das.Chain.Endings.{pending_stopped, was_forced}
use lass_das.Chain.Endings.Words.{activity_or_unknown}

-- `firstLine`.
unfoldable pub first_line : String → String
first_line String.[] = String.[]
first_line (String.◌∷◌ c s) =
    let rest = first_line s in
    if ltb (code c) 10 || ltb 10 (code c) then String.◌∷◌ c rest else String.[]

process_lines : String → List Result → String
process_lines role [] = ""
process_lines role (r ∷ rest) =
    let name = if r.speaker == "" then role else r.speaker in
    (if r.error == ""
      then "Process " <> (name <> " exited 0.\n")
      else "Process " <> (name <> (" did not exit 0: " <> (first_line r.error <> "\n"))))
    <> ((if r.receipt == "" then "" else "Receipt " <> (r.receipt <> "\n"))
        <> process_lines role rest)

-- The record is kept of a stage, and of a role whose launches are limited.
is_recorded : Workflow → String → Bool
is_recorded w role = elim (stage_at w.stages role) [
  | some _ ↦ true
  | none ↦ is_empty w.stages && not (is_zero (lookup_or (pos 0) role w.launch_limit))
]

record_output : Workflow → Assignment → List Result → String
record_output w a results =
    "Runtime record for "
    <> ((elim (stage_at w.stages a.role) [ none ↦ "role" | some _ ↦ "stage" ])
        <> (" "
            <> (a.role
                <> (", written by the engine from what it observed.\n"
                    <> process_lines a.role results))))

-- `stageRecord`, with the times that the clock shows when it starts and when it ends.
unfoldable pub stage_record : State → Assignment → List Result → Time → Time → Option Result
unfolding is_recorded record_output process_lines
stage_record s a results started finished = elim s.workflow [
  | none ↦ none
  | some w ↦
      let note = record no_result {
        role = a.role;
        speaker = "runtime";
        instruction = a.instruction;
        started_at = started;
        finished_at = finished;
      } in
      if not (is_recorded w a.role)
      then none
      else if is_empty results
      then some (record note {
        error = "The stage returned no result at all, so nothing was observed of it.";
      })
      else some (record note { output = record_output w a results })
]

unfoldable pub interrupted_output : Bool → String → String
interrupted_output forced activity =
    (if forced
      then "The runtime was killed while this launch was running, before anything of the launch was saved (lack of memory is one cause)."
      else "The runtime stopped while this launch was running.")
    <> (" " <> activity_or_unknown activity)

-- The note for the action that a restart cut short.
unfoldable pub interruption : State → Assignment → String → Time → Result
unfolding interrupted_output
interruption s a activity now =
    let forced = was_forced s a in
    record no_result {
      role = a.role;
      instruction = a.instruction;
      speaker = "runtime";
      interrupted = true;
      forced = forced;
      activity = activity;
      output = interrupted_output forced activity;
      error = pending_stopped;
      started_at = s.pending_since;
      finished_at = now;
    }

unfoldable pub instruct : String → List Result → List Result
instruct instruction [] = []
instruct instruction (r ∷ rest) = record r { instruction = instruction } ∷ instruct instruction rest

unfoldable pub any_error : List Result → Bool
any_error [] = false
any_error (r ∷ rest) = not (r.error == "") || any_error rest

abbrev pub second : ℕ
second = 1000000000

-- A process that ended in error within ten seconds; `-` of two times is cut off at 0 as the
-- source's difference is below ten seconds there.
unfoldable pub failed_fast : List Result → Bool
failed_fast [] = false
failed_fast (r ∷ rest) =
    (not (r.error == "")
      && (not (r.speaker == "runtime") && ltb (r.finished_at - r.started_at) (10 * second)))
    || failed_fast rest

-- The latest process record of the history, if there is one.
latest_process : List Result → Option Result
latest_process [] = none
latest_process (r ∷ rest) = elim (latest_process rest) [
  | some later ↦ some later
  | none ↦ if r.speaker == "runtime" then none else some r
]

unfoldable pub failed_fast_before : List Result → String → Bool
unfolding latest_process
failed_fast_before history role = elim (latest_process history) [
  | none ↦ false
  | some r ↦ (r.role == role) && failed_fast (r ∷ [])
]

-- The stage that waits for an approval right behind the named one.
approval_after : List Stage → String → Option String
approval_after [] role = none
approval_after (stage ∷ []) role = none
approval_after (stage ∷ next ∷ stages) role =
    let later = approval_after (next ∷ stages) role in
    elim next.approval [
      | none ↦ later
      | some _ ↦ if stage.name == role then some next.name else later
    ]

approval_stage_in : List Stage → String → Bool
approval_stage_in [] role = false
approval_stage_in (stage ∷ stages) role =
    ((stage.name == role) && is_some stage.approval) || approval_stage_in stages role

-- The third result of `ApprovalStage`.
unfoldable pub is_approval_stage : State → String → Bool
unfolding approval_stage_in
is_approval_stage s role = approval_stage_in (stages_of s) role

-- The stage that a launch's receipt failure refuses.
failure_target : State → String → String
failure_target s role =
    if is_approval_stage s role
    then role
    else elim (approval_after (stages_of s) role) [ none ↦ role | some target ↦ target ]

unfoldable pub refusal : String → String → String → Time → Result
refusal target role reason now =
    if (target == role) && (reason == "bundle_credential")
    then record (approval_failure_record target reason now) {
      error = approval_receipt_prefix <> reason;
    }
    else approval_failure_record target reason now

-- The loop over `ApprovalReceiptFailure`: the first result whose failure counts leaves a refusal.
unfoldable pub receipt_failure : State → String → Time → List Result → List Result
unfolding is_approval_stage approval_after failure_target refusal
receipt_failure s role now [] = []
receipt_failure s role now (r ∷ rest) =
    let more = receipt_failure s role now rest in
    let reason = r.approval_receipt_failure in
    if reason == ""
    then more
    else if not (is_approval_stage s role) && (reason == "receipt_unreadable")
    then more
    else refusal (failure_target s role) role reason now ∷ []
