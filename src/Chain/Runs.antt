-- ===== src/Chain/Runs.antt =====
-- stages.go: the launches that the history records, and what the runtime reads from them.
pub mod Bounds
pub mod Tiles
pub mod Notes
use lass_das.Base.{
  ℕ, zero, suc, ◌+◌, String, ◌==◌, Bool, true, false, not, ◌&&◌, ◌||◌, Option, none, some, List, [],
  ◌∷◌, if◌then◌else◌, ltb, length, last?, any, is_some,
}
use lass_das.Chain.Types.{Result, Stage, Workflow, State}
use lass_das.Chain.Refusals.{approval_failure_reason}

-- What the runtime observed of one launch; `from` and `to` bound its records in the history.
pub record StageRun : Type 0 where
  pub role : String
  pub satisfied : Bool
  pub from : ℕ
  pub to : ℕ

-- `stageRun{}`.
abbrev pub no_run : StageRun
no_run = record { role = ""; satisfied = false; from = 0; to = 0 }

-- Where the inner loop of `stageRuns` stopped: the records from `to` on are `rest`.
pub record LaunchEnd : Type 0 where
  pub satisfied : Bool
  pub to : ℕ
  pub rest : List Result

-- After the runtime's note, a refusal of the same role belongs to the launch and fails it.
unfoldable pub note_end : String → Bool → ℕ → List Result → LaunchEnd
note_end role satisfied j [] = record { satisfied = satisfied; to = j; rest = [] }
note_end role satisfied j (r ∷ rest) =
    if (r.role == role) && not (approval_failure_reason r == "")
    then record { satisfied = false; to = suc j; rest = rest }
    else record { satisfied = satisfied; to = j; rest = r ∷ rest }

-- The inner loop: the records of one role up to the runtime's note about them.
unfoldable pub launch_end : String → Bool → ℕ → List Result → LaunchEnd
launch_end role satisfied j [] = record { satisfied = satisfied; to = j; rest = [] }
launch_end role satisfied j (r ∷ rest) =
    let satisfied' = satisfied && (r.error == "") in
    let more = launch_end role satisfied' (suc j) rest in
    if r.role == role
    then (if r.speaker == "runtime" then note_end role satisfied' (suc j) rest else more)
    else record { satisfied = satisfied; to = j; rest = r ∷ rest }

-- A role that the runtime's own observations carry, or none: no launch.
unfoldable pub is_launched : String → Bool
is_launched role = not (role == "") && not (role == "router")

-- The outer loop. Each round takes at least one record, so the history's length is fuel enough.
unfoldable pub stage_runs_from : ℕ → ℕ → List Result → List StageRun
stage_runs_from zero i history = []
stage_runs_from (suc fuel) i [] = []
stage_runs_from (suc fuel) i (r ∷ rest) =
    let e = launch_end r.role true i (r ∷ rest) in
    let more = stage_runs_from fuel e.to e.rest in
    if is_launched r.role
    then record { role = r.role; satisfied = e.satisfied; from = i; to = e.to } ∷ more
    else more

unfoldable pub runs_of : List Result → List StageRun
unfolding stage_runs_from launch_end note_end is_launched
runs_of history = stage_runs_from (length history) 0 history

unfoldable pub stage_runs : State → List StageRun
stage_runs s = runs_of s.history

-- `-1` of the source is `none`.
unfoldable pub stage_from : ℕ → List Stage → String → Option (Stage × ℕ)
stage_from i [] name = none
stage_from i (stage ∷ stages) name =
    if stage.name == name then some (stage, i) else stage_from (suc i) stages name

unfoldable pub stage_at : List Stage → String → Option (Stage × ℕ)
unfolding stage_from
stage_at stages name = stage_from 0 stages name

abbrev pub stages_of : State → List Stage
stages_of s = elim s.workflow [ none ↦ [] | some w ↦ w.stages ]

abbrev pub question_of : State → String
question_of s = elim s.workflow [ none ↦ "" | some w ↦ w.question ]

-- `Stages[0].Name`. The source reads it only of a run that has stages.
abbrev pub first_name : List Stage → String
first_name [] = ""
first_name (stage ∷ _) = stage.name

-- The history behind the requester's latest comment, if there is one.
after_reply : List Result → Option (List Result)
after_reply [] = none
after_reply (r ∷ rest) = elim (after_reply rest) [
  | some later ↦ some later
  | none ↦ if r.speaker == "requester" then some rest else none
]

unfoldable pub since_reply : State → State
unfolding after_reply
since_reply s = elim (after_reply s.history) [
  | none ↦ s
  | some later ↦ record s { history = later }
]

count_reworks : (StageRun → Bool) → String → StageRun → List StageRun → ℕ
count_reworks again first previous [] = 0
count_reworks again first previous (run ∷ runs) =
    let more = count_reworks again first run runs in
    if (run.role == first) && again previous then suc more else more

unfoldable pub entrance_reworks : State → ℕ
unfolding count_reworks
entrance_reworks s =
    let first = first_name (stages_of s) in
    count_reworks (λ previous. (previous.role == first) && previous.satisfied) first no_run
      (stage_runs (since_reply s))

-- A successful launch of a stage that confirms the change, the first stage excepted.
unfoldable pub confirmed_by : List Stage → StageRun → Bool
unfolding stage_at
confirmed_by stages run = elim (stage_at stages run.role) [
  | none ↦ false
  | some (stage, index) ↦ ltb 0 index && (stage.confirm && run.satisfied)
]

unfoldable pub confirmation_reworks : State → ℕ
unfolding count_reworks
confirmation_reworks s =
    count_reworks (confirmed_by (stages_of s)) (first_name (stages_of s)) no_run
      (stage_runs (since_reply s))

unfoldable pub confirmation_decision : State → Bool
confirmation_decision s = elim (last? (stage_runs s)) [
  | none ↦ false
  | some run ↦ confirmed_by (stages_of s) run
]

-- The latest launch that is not of the question role, if the question role's launches end the record.
unfoldable pub before_question : String → List StageRun → Option StageRun
before_question question [] = none
before_question question (run ∷ runs) = elim (before_question question runs) [
  | some asker ↦ some asker
  | none ↦ if run.role == question then none else some run
]

unfoldable pub asking_stage : State → Option (Stage × ℕ)
unfolding before_question
asking_stage s =
    let question = question_of s in
    if question == "" then none else elim (last? (stage_runs s)) [
      | none ↦ none
      | some run ↦
          if run.role == question
          then (elim (before_question question (stage_runs s)) [
            | none ↦ none
            | some asker ↦ stage_at (stages_of s) asker.role
          ])
          else none
    ]

-- `index > 0 && stage.Confirm` of an asking stage.
abbrev pub confirms_change : Option (Stage × ℕ) → Bool
confirms_change none = false
confirms_change (some (stage, index)) = ltb 0 index && stage.confirm

unfoldable pub confirming_question : State → Bool
confirming_question s = confirms_change (asking_stage s)

-- One record of the loop of `changeAnswered`, over its variables `asked` and `answered`.
abbrev pub Asked : Type 0
Asked = Bool × Bool

unfoldable pub answer_step : List Stage → String → ℕ → Asked → Result → Asked
answer_step stages question index (asked, answered) r =
    if r.role == "router"
    then (asked, answered)
    else if r.speaker == "requester"
    then (asked, answered || (asked && (r.role == question)))
    else elim (stage_at stages r.role) [
      | some (_, at) ↦ if ltb at index || ltb index at then (false, false) else (asked, answered)
      | none ↦ (asked || (r.role == question), answered)
    ]

unfoldable pub answer_loop : List Stage → String → ℕ → Asked → List Result → Asked
answer_loop stages question index a [] = a
answer_loop stages question index a (r ∷ rest) =
    answer_loop stages question index (answer_step stages question index a r) rest

unfoldable pub change_answered : State → ℕ → Bool
unfolding answer_loop answer_step
change_answered s index =
    (answer_loop (stages_of s) (question_of s) index (false, false) s.history).1

unfoldable pub awaiting_reply_about_change : State → Bool
awaiting_reply_about_change s =
    if confirmation_decision s
    then (elim (last? (stage_runs s)) [
      | none ↦ false
      | some run ↦ elim (stage_at (stages_of s) run.role) [
        | none ↦ false
        | some (stage, index) ↦ stage.always_ask && not (change_answered s index)
      ]
    ])
    else false

always_asks_at : List Stage → Option StageRun → Bool
always_asks_at stages none = false
always_asks_at stages (some run) = elim (stage_at stages run.role) [
  | none ↦ false
  | some (stage, _) ↦ stage.always_ask
]

asks_elsewhere : State → Bool
asks_elsewhere s =
    let configured = any (λ stage. stage.confirm && stage.always_ask) (stages_of s) in
    elim (asking_stage s) [
      | none ↦ configured
      | some (stage, index) ↦ if ltb 0 index && stage.confirm then stage.always_ask else configured
    ]

unfoldable pub asks_every_change : State → Bool
unfolding always_asks_at asks_elsewhere
asks_every_change s =
    if confirmation_decision s
    then always_asks_at (stages_of s) (last? (stage_runs s))
    else asks_elsewhere s
