-- ===== src/Chain/Actions.antt =====
-- stages.go: what may run next in an ordered run, and the pause before any implementation.
pub mod Progress
pub mod Validated
pub mod Closed
pub mod Done
pub mod Answers
pub mod Gate
use lass_das.Base.{
  ℕ, zero, suc, String, ◌==◌, Bool, true, false, not, ◌&&◌, ◌||◌, Option, none, some, List, [], ◌∷◌,
  if◌then◌else◌, ltb, last?, any, ℤ, non_positive, below, drop,
}
use lass_das.Chain.Types.{
  Result, Stage, Workflow, State, model_stage, command_stage, environment_pause,
}
use lass_das.Chain.Runs.{
  StageRun, no_run, stage_runs, stage_at, stages_of, question_of, first_name, asking_stage,
  confirms_change, change_answered,
}

-- The runtime's record of the pause, which holds the request until other words follow.
abbrev pub environment_pause_note : String
environment_pause_note =
    "The decision after the first stage paused this request before anything was implemented, because a fact shows the execution environment falls short of the agreed verification. Nothing runs until 再開 is written, after the operator has enlarged or prepared the environment."

unfoldable pub environment_pause_record : Result → Bool
environment_pause_record r =
    (r.role == "router")
    && ((r.speaker == "runtime") && ((r.error == "") && (r.output == environment_pause_note)))

count_pauses : List Result → ℕ
count_pauses [] = 0
count_pauses (r ∷ rest) =
    let more = count_pauses rest in if environment_pause_record r then suc more else more

unfoldable pub environment_pauses : State → ℕ
unfolding count_pauses
environment_pauses s = count_pauses s.history

unfoldable pub environment_paused : State → Bool
environment_paused s = elim (last? s.history) [ none ↦ false | some r ↦ environment_pause_record r ]

-- A stage behind the first ran.
later_ran : List Stage → List StageRun → Bool
later_ran stages [] = false
later_ran stages (run ∷ runs) =
    (elim (stage_at stages run.role) [ none ↦ false | some (_, index) ↦ ltb 0 index ])
    || later_ran stages runs

unfoldable pub first_is_model : List Stage → Bool
first_is_model [] = false
first_is_model (stage ∷ _) = stage.kind == model_stage

unfoldable pub environment_pause_open : State → Bool
unfolding later_ran first_is_model
environment_pause_open s = elim s.workflow [
  | none ↦ false
  | some w ↦
      not (non_positive w.environment_pause_limit)
      && ((w.question == "")
          && (first_is_model w.stages
              && (not (later_ran w.stages (stage_runs s))
                  && below (environment_pauses s) w.environment_pause_limit)))
]

-- `satisfied` of `stageActions`, a map from stage names that starts as false everywhere.
abbrev pub Observed : Type 0
Observed = String → Bool

abbrev pub observe : String → Bool → Observed → Observed
observe role value seen name = if name == role then value else seen name

unfoldable pub clear_all : List Stage → Observed → Observed
clear_all [] seen = seen
clear_all (stage ∷ later) seen = clear_all later (observe stage.name false seen)

-- One round of the loop: the launch is recorded, and the stages behind a stage that ran again
-- have nothing observed about the new state.
unfoldable pub observe_run : List Stage → Observed → StageRun → Observed
observe_run stages seen run =
    let seen' = observe run.role run.satisfied seen in
    elim (stage_at stages run.role) [
      | none ↦ seen'
      | some (_, index) ↦ clear_all (drop (suc index) stages) seen'
    ]

unfoldable pub observe_runs : List Stage → Observed → List StageRun → Observed
observe_runs stages seen [] = seen
observe_runs stages seen (run ∷ runs) = observe_runs stages (observe_run stages seen run) runs

unfoldable pub first_open : Observed → List Stage → String
first_open seen [] = "done"
first_open seen (stage ∷ stages) = if seen stage.name then first_open seen stages else stage.name

-- The first stage that nothing satisfies, or done.
unfoldable pub next_stage : State → String
unfolding observe_runs observe_run clear_all first_open
next_stage s = first_open (observe_runs (stages_of s) (λ _. false) (stage_runs s)) (stages_of s)

-- What follows the latest launch of a stage that ended cleanly.
unfoldable pub after_clean : State → Stage → ℕ → String → List String
after_clean s stage index next =
    let first = first_name (stages_of s) in
    let question = question_of s in
    if not (ltb 0 index) && (not (question == "") && not (next == "done"))
    then stage.name ∷ question ∷ next ∷ []
    else if ltb 0 index && (stage.confirm && (not (question == "") && not (next == "done")))
    then (if stage.always_ask && not (change_answered s index)
        then first ∷ question ∷ []
        else first ∷ question ∷ next ∷ [])
    else if not (ltb 0 index) && (not (next == "done") && environment_pause_open s)
    then environment_pause ∷ next ∷ []
    else next ∷ []

-- What follows the question role, which is the only role outside the ordered run.
unfoldable pub after_question : State → List String
after_question s = elim (asking_stage s) [
  | none ↦ first_name (stages_of s) ∷ []
  | some (asker, at) ↦
      if ltb 0 at && asker.confirm then asker.name ∷ [] else first_name (stages_of s) ∷ []
]

-- What follows a launch that did not end cleanly.
unfoldable pub after_failure : Stage → List String
after_failure stage = if stage.kind == command_stage then stage.on_failure ∷ [] else stage.name ∷ []

abbrev pub last_run : State → StageRun
last_run s = elim (last? (stage_runs s)) [ none ↦ no_run | some run ↦ run ]

-- The switch over the latest launch.
unfoldable pub actions_after : State → StageRun → String → List String
unfolding after_clean after_question after_failure
actions_after s last next = elim (stage_at (stages_of s) last.role) [
  | none ↦ if last.role == "" then next ∷ [] else after_question s
  | some (stage, index) ↦
      if last.satisfied then after_clean s stage index next else after_failure stage
]

unfoldable pub stage_actions : State → List String
unfolding actions_after
stage_actions s = actions_after s (last_run s) (next_stage s)
