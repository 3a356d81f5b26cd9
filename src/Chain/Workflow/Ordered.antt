-- ===== src/Chain/Workflow/Ordered.antt =====
-- stages.go: validateStages and validatePreview, the checks of an ordered run.
use lass_das.Base.{
  ℕ, suc, String, ◌==◌, Bool, false, not, ◌&&◌, ◌||◌, none, some, List, [], ◌∷◌, if◌then◌else◌, ltb,
  leb, non_positive, is_zero, has_key, lookup_or, last?, get_elem?, is_empty,
}
use lass_das.Chain.Types.{Stage, Workflow, Preview, model_stage, command_stage, environment_pause}
use lass_das.Chain.Runs.{stage_at}
use lass_das.Chain.Workflow.Checks.{Invalid, Check, ◌>>◌, refuse_if}

abbrev pub Roles : Type 0
Roles = List (String × String)

abbrev pub Kinds : Type 0
Kinds = List (String × String)

-- The first loop: the names and kinds of the stages, each of a configured role of its own.
unfoldable pub check_names : Roles → Kinds → List Stage → Check
check_names roles kinds [] = none
check_names roles kinds (stage ∷ stages) =
    refuse_if (not (has_key stage.name roles) || (stage.name == "done") || (stage.name == "router"))
      (Invalid.stage_unconfigured stage.name)
    >> refuse_if (has_key stage.name kinds) (Invalid.stage_repeated stage.name)
    >> refuse_if (not (stage.kind == model_stage) && not (stage.kind == command_stage))
        (Invalid.stage_kind stage.name)
    >> check_names roles ((stage.name, stage.kind) ∷ kinds) stages

-- `kinds`, once the loop has passed every stage.
unfoldable pub kinds_of : List Stage → Kinds
kinds_of [] = []
kinds_of (stage ∷ stages) = (stage.name, stage.kind) ∷ kinds_of stages

unfoldable pub check_failures : Kinds → List Stage → Check
check_failures kinds [] = none
check_failures kinds (stage ∷ stages) =
    refuse_if
      ((stage.kind == command_stage) && not (lookup_or "" stage.on_failure kinds == model_stage))
      (Invalid.command_on_failure stage.name)
    >> refuse_if ((stage.kind == model_stage) && not (stage.on_failure == ""))
        (Invalid.model_on_failure stage.name)
    >> check_failures kinds stages

unfoldable pub check_last : List Stage → Check
check_last stages = elim (last? stages) [
  | none ↦ none
  | some stage ↦ refuse_if (not (stage.kind == command_stage)) Invalid.last_not_command
]

unfoldable pub first_kind : List Stage → String
first_kind [] = ""
first_kind (stage ∷ _) = stage.kind

unfoldable pub check_question_role : Roles → Kinds → Workflow → Check
check_question_role roles kinds w =
    if w.question == ""
    then none
    else refuse_if (not (has_key w.question roles)) (Invalid.question_unconfigured w.question)
      >> refuse_if (has_key w.question kinds) (Invalid.question_is_stage w.question)
      >> refuse_if (not (first_kind w.stages == model_stage)) Invalid.entrance_not_model

unfoldable pub check_pause : Roles → Workflow → Check
check_pause roles w =
    if non_positive w.environment_pause_limit
    then none
    else refuse_if (not (w.question == "")) (Invalid.pause_with_question w.question)
      >> refuse_if (not (first_kind w.stages == model_stage)) Invalid.pause_needs_model
      >> refuse_if (has_key environment_pause roles) Invalid.pause_is_role

-- What stands right after a stage that asks about every change.
unfoldable pub check_after_ask : List Stage → Stage → ℕ → Check
check_after_ask stages stage index = elim (get_elem? stages (suc index)) [
  | none ↦ none
  | some after ↦
      refuse_if (after.kind == model_stage) (Invalid.ask_before_model stage.name after.name)
      >> refuse_if
          ((after.kind == command_stage) && (elim (stage_at stages after.on_failure) [
            | none ↦ false
            | some (_, at) ↦ leb index at
          ]))
          (Invalid.ask_before_failure stage.name after.name after.on_failure)
]

unfoldable pub check_confirm : List Stage → String → ℕ → List Stage → Check
check_confirm all question index [] = none
check_confirm all question index (stage ∷ stages) =
    refuse_if (stage.always_ask && not stage.confirm) (Invalid.ask_without_confirm stage.name)
    >> (if stage.confirm
        then refuse_if (not (stage.kind == model_stage)) (Invalid.confirm_not_model stage.name)
          >> refuse_if (not (ltb 0 index)) (Invalid.confirm_first stage.name)
          >> refuse_if (question == "") (Invalid.confirm_without_question stage.name)
          >> (if stage.always_ask then check_after_ask all stage index else none)
        else none)
    >> check_confirm all question (suc index) stages

unfoldable pub has_confirm : List Stage → Bool
has_confirm [] = false
has_confirm (stage ∷ stages) = stage.confirm || has_confirm stages

unfoldable pub check_preview_role : Roles → Kinds → String → String → String → Check
check_preview_role roles kinds question setting name =
    refuse_if (name == "") (Invalid.preview_unset setting)
    >> refuse_if (not (has_key name roles) || (name == "done") || (name == "router"))
        (Invalid.preview_unconfigured setting name)
    >> refuse_if (has_key name kinds) (Invalid.preview_is_stage setting name)
    >> refuse_if (name == question) (Invalid.preview_is_question setting name)

unfoldable pub validate_preview : Roles → Kinds → Bool → String → Preview → Check
unfolding check_preview_role
validate_preview roles kinds confirms question p =
    refuse_if (not confirms) Invalid.preview_without_confirm
    >> check_preview_role roles kinds question "workflow.preview.up" p.up
    >> check_preview_role roles kinds question "workflow.preview.down" p.down
    >> refuse_if (p.up == p.down) (Invalid.preview_same p.up)

unfoldable pub validate_stages : Roles → Workflow → Check
validate_stages roles w =
    let kinds = kinds_of w.stages in
    refuse_if (not (is_empty w.start) || not (is_empty w.after) || not (is_empty w.recover))
      Invalid.connections_beside_stages
    >> check_names roles [] w.stages
    >> check_failures kinds w.stages
    >> check_last w.stages
    >> check_question_role roles kinds w
    >> check_pause roles w
    >> check_confirm w.stages w.question 0 w.stages
    >> refuse_if (not (is_zero w.confirmation_rework_limit) && not (has_confirm w.stages))
        Invalid.limit_without_confirm
    >> (elim w.preview [
      | none ↦ none
      | some p ↦ validate_preview roles kinds (has_confirm w.stages) w.question p
    ])
