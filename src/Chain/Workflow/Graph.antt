-- ===== src/Chain/Workflow/Graph.antt =====
-- workflow.go: ValidateApproval and Validate. The loops over maps visit the pairs in the list's order.
use lass_das.Base.{
  String, ◌==◌, Bool, true, false, not, ◌&&◌, ◌||◌, none, some, List, [], ◌∷◌, if◌then◌else◌, ℤ,
  non_positive, is_negative, is_zero, has_key, lookup_or, contains_text, is_empty,
}
use lass_das.Chain.Types.{Stage, Workflow, Approval, command_stage}
use lass_das.Chain.Workflow.Checks.{Invalid, Check, ◌>>◌, refuse_if}
use lass_das.Chain.Workflow.Ordered.{Roles, validate_stages}
use lass_das.Chain.Workflow.Paths.{is_local, has_parent}

any_non_positive : List ℤ → Bool
any_non_positive [] = false
any_non_positive (id ∷ ids) = non_positive id || any_non_positive ids

any_outside : List String → Bool
any_outside [] = false
any_outside (path ∷ paths) = not (is_local path) || any_outside paths

-- The checks of an approval that a command stage waits for.
unfoldable pub check_approval : Stage → Approval → Check
unfolding any_non_positive any_outside
check_approval stage a =
    refuse_if (not (stage.kind == command_stage)) (Invalid.approval_needs_command stage.name)
    >> refuse_if (is_empty a.approver_user_ids) (Invalid.approval_needs_approvers stage.name)
    >> refuse_if (any_non_positive a.approver_user_ids) (Invalid.approval_id stage.name)
    >> refuse_if (not (is_local a.bundle) || has_parent a.bundle)
        (Invalid.approval_bundle stage.name)
    >> refuse_if (is_empty a.show) (Invalid.approval_needs_show stage.name)
    >> refuse_if (any_outside a.show) (Invalid.approval_show stage.name)
    >> refuse_if (non_positive a.expiry_hours) (Invalid.approval_expiry stage.name)

unfoldable pub validate_approval : Stage → Check
unfolding check_approval
validate_approval stage = elim stage.approval [ none ↦ none | some a ↦ check_approval stage a ]

validate_approvals : List Stage → Check
validate_approvals [] = none
validate_approvals (stage ∷ stages) = validate_approval stage >> validate_approvals stages

-- A connection of the section leads to the role.
leads_to : String → List (String × List String) → Bool
leads_to role [] = false
leads_to role ((_, targets) ∷ section) = contains_text role targets || leads_to role section

unfoldable pub check_limits : Roles → Workflow → List (String × ℤ) → Check
unfolding leads_to
check_limits roles w [] = none
check_limits roles w ((role, limit) ∷ limits) =
    refuse_if (not (has_key role roles) || (role == "done")) (Invalid.limit_of_unavailable role)
    >> refuse_if (non_positive limit) (Invalid.limit_below_one role)
    >> refuse_if (not (leads_to role w.after || leads_to role w.recover))
        (Invalid.limit_unconnected role)
    >> check_limits roles w limits

-- Both connections of a role are configured.
unfoldable pub is_connected : Workflow → String → Bool
is_connected w role =
    not (is_empty (lookup_or [] role w.after)) && not (is_empty (lookup_or [] role w.recover))

unfoldable pub check_targets : Roles → Workflow → String → Bool → List String → Check
check_targets roles w source completion [] = none
check_targets roles w source completion (target ∷ targets) =
    (if (target == "done") && completion
      then none
      else refuse_if (not (has_key target roles) || (target == "done"))
          (Invalid.unavailable_action source target)
        >> refuse_if (not (is_connected w target)) (Invalid.needs_connections target))
    >> check_targets roles w source completion targets

-- The closure `check` of `Validate`.
unfoldable pub check_source : Roles → Workflow → String → Bool → List String → Check
check_source roles w source completion targets =
    refuse_if (is_empty targets) (Invalid.no_next_action source)
    >> check_targets roles w source completion targets

unfoldable pub check_section :
    Roles → Workflow → String → Bool → List (String × List String) → Check
check_section roles w section completion [] = none
check_section roles w section completion ((source, targets) ∷ connections) =
    refuse_if (not (has_key source roles) || (source == "done"))
      (Invalid.unavailable_source section source)
    >> refuse_if (not (is_connected w source)) (Invalid.needs_connections source)
    >> check_source roles w source completion targets
    >> check_section roles w section completion connections

unfoldable pub validate_graph : Roles → Workflow → Check
validate_graph roles w =
    check_limits roles w w.launch_limit
    >> refuse_if (not (w.question == "")) Invalid.question_in_graph
    >> check_source roles w "start" false w.start
    >> check_section roles w "after" true w.after
    >> check_section roles w "recover" false w.recover

unfoldable pub validate_ordered : Roles → Workflow → Check
unfolding validate_approvals
validate_ordered roles w =
    refuse_if (not (is_empty w.launch_limit)) Invalid.launch_limit_in_ordered_run
    >> validate_approvals w.stages
    >> validate_stages roles w

-- A limit that needs an ordered run and is not negative.
unfoldable pub bad_limit : ℤ → List Stage → Bool
bad_limit limit stages = is_negative limit || (not (is_zero limit) && is_empty stages)

unfoldable pub validate : Roles → Workflow → Check
unfolding bad_limit
validate roles w =
    refuse_if (bad_limit w.entrance_rework_limit w.stages) Invalid.entrance_rework_limit
    >> refuse_if (bad_limit w.confirmation_rework_limit w.stages) Invalid.confirmation_rework_limit
    >> refuse_if (bad_limit w.environment_pause_limit w.stages) Invalid.pause_limit
    >> (if is_empty w.stages
        then refuse_if (elim w.preview [ none ↦ false | some _ ↦ true ])
            Invalid.preview_without_stages
          >> validate_graph roles w
        else validate_ordered roles w)
