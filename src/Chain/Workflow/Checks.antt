-- ===== src/Chain/Workflow/Checks.antt =====
-- workflow.go and stages.go: the reasons for which a configured workflow is refused. Each stands
-- for one error message with the names that the message shows.
use lass_das.Base.{String, Bool, true, false, Option, none, some}

pub data Invalid : Type 0 where
  entrance_rework_limit confirmation_rework_limit pause_limit preview_without_stages : Invalid
  launch_limit_in_ordered_run question_in_graph : Invalid
  limit_of_unavailable limit_below_one limit_unconnected : String → Invalid
  no_next_action : String → Invalid
  unavailable_action : String → String → Invalid
  needs_connections : String → Invalid
  unavailable_source : String → String → Invalid
  approval_needs_command approval_needs_approvers approval_id approval_bundle : String → Invalid
  approval_needs_show approval_show approval_expiry : String → Invalid
  connections_beside_stages : Invalid
  stage_unconfigured stage_repeated stage_kind : String → Invalid
  command_on_failure model_on_failure : String → Invalid
  last_not_command : Invalid
  question_unconfigured question_is_stage : String → Invalid
  entrance_not_model : Invalid
  pause_with_question : String → Invalid
  pause_needs_model pause_is_role : Invalid
  ask_without_confirm confirm_not_model confirm_first confirm_without_question : String → Invalid
  ask_before_model : String → String → Invalid
  ask_before_failure : String → String → String → Invalid
  limit_without_confirm preview_without_confirm : Invalid
  preview_unset : String → Invalid
  preview_unconfigured preview_is_stage preview_is_question : String → String → Invalid
  preview_same : String → Invalid

-- A check returns the first reason that it finds.
abbrev pub Check : Type 0
Check = Option Invalid

infixl 5 ◌>>◌
abbrev pub ◌>>◌ : Check → Check → Check
none >> k = k
some e >> k = some e

abbrev pub refuse_if : Bool → Invalid → Check
refuse_if true e = some e
refuse_if false e = none
