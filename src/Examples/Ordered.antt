-- ===== src/Examples/Ordered.antt =====
-- The theorems about an ordered run, at the sample.
use lass_das.Base.{
  ◌==◌, ◌++◌, none, some, [], ◌∷◌, refl, inl, inr, ◌≡◌, In, last?, has_key, lookup_or, All, true,
}
use lass_das.Chain.Types.{Result, no_result}
use lass_das.Chain.Runs.{StageRun, stage_runs, stage_at, runs_of, change_answered}
use lass_das.Chain.Workflow.Ordered.{
  validate_stages, check_names, check_failures, check_last, check_question_role, check_pause,
  check_confirm, check_after_ask, kinds_of, first_kind, has_confirm,
}
use lass_das.Chain.Actions.{stage_actions, next_stage, first_open}
use lass_das.Chain.Actions.Gate.{stage_actions-asked}
use lass_das.Chain.Actions.Done.{AllStand, stage_actions-done}
use lass_das.Chain.Actions.Closed.{CanRun, stage_actions-CanRun}
use lass_das.Chain.Actions.Progress.{stands, next_stage-stands}
use lass_das.Chain.Actions.Answers.{answered_since, change_answered-since}
use lass_das.Chain.Runs.Tiles.{Tiles, stage_runs-Tiles}
use lass_das.Chain.Runs.Notes.{stage_runs-router_note}
use lass_das.Examples.Sample.{roles, stages, workflow, confirm_change, answered, delivered}

valid : validate_stages roles workflow ≡ none
unfolding validate_stages ◌==◌ check_names check_failures check_last check_question_role check_pause
    check_confirm check_after_ask kinds_of first_kind has_confirm has_key lookup_or stage_at
valid = refl

offered_now : stage_actions answered ≡ "elicit" ∷ "ask" ∷ "deliver" ∷ []
unfolding stage_actions ◌==◌ stage_at stage_runs runs_of next_stage change_answered
offered_now = refl

-- The launch that the sample ends with, its stage found and its bounds.
abbrev latest : StageRun
latest = record { role = "confirm_change"; satisfied = true; from = 10; to = 12 }

latest_run : last? (stage_runs answered) ≡ some latest
unfolding stage_runs runs_of ◌==◌
latest_run = refl

found : stage_at stages "confirm_change" ≡ some (confirm_change, 3)
unfolding stage_at ◌==◌
found = refl

delivering : In "deliver" (stage_actions answered)
delivering = rw offered_now (inr (inr (inl refl)))

stage_actions-asked_example : answered_since stages "ask" 3 answered.history ≡ true
stage_actions-asked_example =
    stage_actions-asked roles workflow answered latest confirm_change 3 "deliver" valid refl
      latest_run refl found refl refl delivering (λ e. cc) (λ e. cc)

all_done : In "done" (stage_actions delivered)
unfolding stage_actions ◌==◌ stage_at stage_runs runs_of next_stage change_answered
all_done = inl refl

stage_actions-done_example : AllStand stages (stage_runs delivered)
stage_actions-done_example =
    stage_actions-done roles workflow delivered valid refl refl (λ e. cc) all_done

stage_actions-CanRun_example : All (CanRun roles) (stage_actions answered)
stage_actions-CanRun_example = stage_actions-CanRun roles workflow answered valid refl refl

next_stage-stands_example :
    next_stage answered ≡ first_open (λ name. stands stages name (stage_runs answered)) stages
next_stage-stands_example = next_stage-stands answered

change_answered-since_example :
    change_answered answered 3 ≡ answered_since stages "ask" 3 answered.history
change_answered-since_example = change_answered-since answered 3

stage_runs-Tiles_example : Tiles 0 answered.history (stage_runs answered)
stage_runs-Tiles_example = stage_runs-Tiles answered

abbrev routing_note : Result
routing_note = record no_result {
  role = "router";
  speaker = "runtime";
  output = "A limit is reached.";
}

stage_runs-router_note_example :
    stage_runs (record answered { history = answered.history ++ routing_note ∷ [] })
    ≡ stage_runs answered
stage_runs-router_note_example = stage_runs-router_note answered routing_note refl
