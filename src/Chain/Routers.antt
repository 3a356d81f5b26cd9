-- ===== src/Chain/Routers.antt =====
-- router.go, stages.go and single.go: the routers. An error is a value; what the decision service
-- answers is an argument. The prose that the service is told is not modelled.
use mathlib.Core.List.{reverse}
use lass_das.Base.{
  ℕ, suc, String, ◌==◌, Bool, true, not, ◌&&◌, Option, none, some, List, [], ◌∷◌, if◌then◌else◌,
  ltb, length, has_key, ◌≡◌, Bool-cases, Option-cases, inl, inr,
}
use lass_das.Chain.Types.{Result, Assignment, State}
use lass_das.Chain.Runs.{stages_of}
use lass_das.Chain.Actions.{stage_actions}
use lass_das.Chain.Instructions.{stage_instruction}
use lass_das.Chain.Offers.{offered, routing_choices}
use lass_das.Chain.Offers.Choices.{ReservedNames, routing_choices-offered}

pub data RouteError : Type 0 where
  no_next_action no_model unconfigured_role no_ordered_run no_decision_router no_stage
        not_connected :
      RouteError
  unavailable : String → RouteError
  both : RouteError → RouteError → RouteError

pub data Routed : Type 0 where
  assigned : Assignment → Routed
  failed : RouteError → Routed

abbrev pub Router : Type 0
Router = State → Routed

-- What the decision service answers: a choice, or the error of the call.
pub data Answer : Type 0 where
  chose : String → Answer
  no_answer : String → Answer

abbrev pub Judge : Type 0
Judge = State → List (String × String) → Answer

accept : List (String × String) → Answer → Routed
accept choices (no_answer e) = failed (unavailable e)
accept choices (chose role) =
    if has_key role choices
    then assigned (record { role = role; instruction = "" })
    else failed unconfigured_role

judged : Option Judge → State → List (String × String) → Routed
judged none s choices = failed no_model
judged (some j) s choices = accept choices (j s choices)

-- `DecisionRouter.Next`.
unfoldable pub decision_next : Option Judge → List (String × String) → Router
unfolding judged accept
decision_next judge roles s = elim (routing_choices s roles) [
  | none ↦ failed no_next_action
  | some choices ↦ judged judge s choices
]

-- `Alternate.Next`: the second router is asked only where the first one failed.
unfoldable pub alternate_next : Bool → Router → Option Router → Router
alternate_next ended primary secondary s = elim (primary s) [
  | assigned a ↦ assigned a
  | failed e ↦ elim secondary [
    | none ↦ failed e
    | some other ↦
        if ended
        then failed e
        else elim (other s) [ assigned a ↦ assigned a | failed e' ↦ failed (both e e') ]
  ]
]

instructed : State → Routed → Routed
instructed s (failed e) = failed e
instructed s (assigned a) = assigned (record a { instruction = stage_instruction s a.role })

single_action : State → List String → Routed
single_action s [] = failed no_stage
single_action s (action ∷ _) =
    if action == ""
    then failed no_stage
    else if action == "done"
    then assigned (record { role = "done"; instruction = "" })
    else assigned (record { role = action; instruction = stage_instruction s action })

-- `StageRouter.Next`.
unfoldable pub stage_next : Option Router → Router
unfolding instructed single_action
stage_next entrance s = elim (stages_of s) [
  | [] ↦ failed no_ordered_run
  | _ ∷ _ ↦
      if ltb 1 (length (stage_actions s))
      then (elim entrance [
        | none ↦ failed no_decision_router
        | some router ↦ instructed s (router s)
      ])
      else single_action s (stage_actions s)
]

-- `OneRoleRouter.Next`, over the history from its end: the records of the role's latest launch.
count_processes : String → ℕ → List Result → Option ℕ
count_processes role n [] = some n
count_processes role n (r ∷ earlier) =
    let more = count_processes role (suc n) earlier in
    if not (r.speaker == "runtime") && (r.role == role)
    then (if r.error == "" then more else none)
    else some n

skip_runtime : String → List Result → Option ℕ
skip_runtime role [] = count_processes role 0 []
skip_runtime role (r ∷ earlier) =
    let more = skip_runtime role earlier in
    if r.speaker == "runtime"
    then (if r.error == "" then more else none)
    else count_processes role 0 (r ∷ earlier)

unfoldable pub one_role_next : String → Router
unfolding skip_runtime count_processes
one_role_next role s = elim (skip_runtime role (reverse s.history)) [
  | none ↦ assigned (record { role = role; instruction = "" })
  | some n ↦ assigned (record { role = if ltb 0 n then "done" else role; instruction = "" })
]

failed-ne-assigned : {e : RouteError} {a : Assignment} → failed e ≡ assigned a → ⊥
failed-ne-assigned h = cc

accept-has_key :
    (choices : List (String × String)) (answer : Answer) (a : Assignment)
    → accept choices answer ≡ assigned a
    → has_key a.role choices ≡ true
unfolding accept
accept-has_key choices (no_answer e) a h = absurd (failed-ne-assigned h)
accept-has_key choices (chose role) a h = elim (Bool-cases (has_key role choices)) [
  | inr e ↦ absurd (failed-ne-assigned (rw e at h))
  | inl e ↦ rw (← same_role (rw e at h)) e
]
  where
    same_role : assigned (record { role = role; instruction = "" }) ≡ assigned a → role ≡ a.role
    same_role q = cc

judged-has_key :
    (judge : Option Judge) (s : State) (choices : List (String × String)) (a : Assignment)
    → judged judge s choices ≡ assigned a
    → has_key a.role choices ≡ true
unfolding judged
judged-has_key none s choices a h = absurd (failed-ne-assigned h)
judged-has_key (some j) s choices a h = accept-has_key choices (j s choices) a h

-- Whatever the decision service answers, an action that DecisionRouter.Next assigns passes the
-- loop's own test of the action, where no question role kept out is named done or like the pause
-- and no first stage is named like the pause.
pub decision_next-offered :
    (judge : Option Judge) (roles : List (String × String)) (s : State) (a : Assignment)
    → ReservedNames s
    → decision_next judge roles s ≡ assigned a
    → offered s a.role ≡ true
unfolding decision_next
decision_next-offered judge roles s a r h = elim (Option-cases (routing_choices s roles)) [
  | inl e ↦ absurd (failed-ne-assigned (rw (e, decision_next) at h))
  | inr (choices, e) ↦
      routing_choices-offered s roles choices a.role r e
        (judged-has_key judge s choices a (rw (e, decision_next) at h))
]
