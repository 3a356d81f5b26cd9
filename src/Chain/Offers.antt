-- ===== src/Chain/Offers.antt =====
-- workflow.go: what the connections permit, how often a role was launched, and what is offered.
pub mod Choices
pub mod Limits
use lass_das.Base.{
  ◌<>◌, ℕ, zero, suc, String, ◌==◌, contains, decimal, Bool, true, false, not, ◌&&◌, ◌||◌, Option,
  none, some, List, [], ◌∷◌, ◌++◌, if◌then◌else◌, any, all, ℤ, pos, is_zero, reaches, lookup,
  lookup_or, contains_text, is_empty,
}
use lass_das.Chain.Types.{Result, no_result, Stage, Workflow, State, Time, environment_pause}
use lass_das.Chain.Runs.{
  entrance_reworks, confirmation_reworks, confirmation_decision, awaiting_reply_about_change,
  first_name,
}
use lass_das.Chain.Actions.{stage_actions, environment_pause_open}

graph_actions : State → Workflow → List String
graph_actions s w =
    if s.step == ""
    then w.start
    else if s.recovering
    then lookup_or [] s.step w.recover
    else lookup_or [] s.step w.after

unfoldable pub next_actions : State → List String
unfolding graph_actions
next_actions s = elim s.workflow [
  | none ↦ []
  | some w ↦ if is_empty w.stages then graph_actions s w else stage_actions s
]

unfoldable pub permits : State → String → Bool
permits s role = elim s.workflow [ none ↦ true | some w ↦ contains_text role (next_actions s) ]

-- The variables of the loop of `launches`.
pub record Launches : Type 0 where
  pub count : ℕ
  pub previous : String
  pub failed : Bool

abbrev pub no_launches : Launches
no_launches = record { count = 0; previous = ""; failed = false }

unfoldable pub launch_step : String → Launches → Result → Launches
launch_step role l r =
    if r.speaker == "requester"
    then no_launches
    else if r.speaker == "runtime"
    then (if r.role == role then record l { previous = "" } else l)
    else record {
      count =
          if (r.role == role) && (not (l.previous == role) || l.failed)
          then suc l.count
          else l.count;
      previous = r.role;
      failed = not (r.error == "");
    }

unfoldable pub launch_loop : String → Launches → List Result → Launches
launch_loop role l [] = l
launch_loop role l (r ∷ rest) = launch_loop role (launch_step role l r) rest

unfoldable pub launches : State → String → ℕ
unfolding launch_loop launch_step
launches s role = (launch_loop role no_launches s.history).count

abbrev pub limit_or_two : ℤ → ℤ
limit_or_two limit = if is_zero limit then pos 2 else limit

-- The limit of the choice at hand, counted over its own reworks.
unfoldable pub at_rework_limit : State → Workflow → Bool
at_rework_limit s w =
    if confirmation_decision s
    then reaches (confirmation_reworks s) (limit_or_two w.confirmation_rework_limit)
    else reaches (entrance_reworks s) (limit_or_two w.entrance_rework_limit)

at_role_limit : State → Workflow → String → Bool
at_role_limit s w role = elim (lookup role w.launch_limit) [
  | none ↦ false
  | some limit ↦ reaches (launches s role) limit
]

unfoldable pub at_launch_limit : State → String → Bool
unfolding at_rework_limit at_role_limit
at_launch_limit s role = elim s.workflow [
  | none ↦ false
  | some w ↦
      if is_empty w.stages
      then at_role_limit s w role
      else (role == first_name w.stages) && at_rework_limit s w
]

-- The question role kept out of this decision, or none.
unfoldable pub unavailable_question : State → String
unavailable_question s = if confirmation_decision s then "" else s.question_unavailable

unfoldable pub is_unavailable : State → String → Bool
unfolding unavailable_question
is_unavailable s action = not (unavailable_question s == "") && (action == unavailable_question s)

-- Another action that can be chosen is below its limit.
unfoldable pub has_way : State → String → Bool
has_way s other =
    not (other == "done") && (not (is_unavailable s other) && not (at_launch_limit s other))

unfoldable pub offered : State → String → Bool
unfolding has_way
offered s action =
    if is_unavailable s action
    then false
    else if not (permits s action)
    then false
    else if (action == "done") || not (at_launch_limit s action)
    then true
    else not (any (has_way s) (next_actions s))

abbrev pub entrance_limit : String
entrance_limit = "entrance rework limit"

abbrev pub confirmation_limit : String
confirmation_limit = "confirmation rework limit"

abbrev entrance_note : String → ℕ → String
entrance_note role count = ◌<>◌ (◌<>◌ role " reached the ") (
    ◌<>◌ entrance_limit (
      ◌<>◌ " after " (
        ◌<>◌ (decimal count)
          " repeats; this choice stays unavailable until a new requester reply. Choose among the remaining actions without weakening the original requirements.")))

abbrev confirmation_note : String → ℕ → Bool → String
confirmation_note role count awaiting = ◌<>◌ (◌<>◌ role " reached the ") (
    ◌<>◌ confirmation_limit (
      ◌<>◌ " after " (
        ◌<>◌ (decimal count) (
          ◌<>◌
            " returns from the stage that confirms the change; after that stage this choice stays unavailable until a new requester reply. "
            (◌<>◌
              (if awaiting
                then "Ask the requester"
                else "Ask the requester or go on to the next stage")
              ", without weakening the original requirements.")))))

-- `strings.Contains` of a note by which the runtime said so since the requester last answered.
unfoldable pub is_noted : String → String → List Result → Bool
is_noted role text [] = false
is_noted role text (r ∷ rest) =
    is_noted role text rest
    || ((r.speaker == "runtime")
        && ((r.role == role)
            && (contains r.output text
                && not (any (λ (q : Result). q.speaker == "requester") rest))))

unfoldable pub runtime_note : String → String → Time → Result
runtime_note role text now = record no_result {
  role = role;
  speaker = "runtime";
  finished_at = now;
  output = text;
}

-- The part of `launchLimitNotes` for an ordered run.
unfoldable pub rework_notes : State → Workflow → Time → List Result
unfolding is_noted runtime_note
rework_notes s w now =
    let role = first_name w.stages in
    let limit = if confirmation_decision s then confirmation_limit else entrance_limit in
    let note =
      if confirmation_decision s
      then confirmation_note role (confirmation_reworks s) (awaiting_reply_about_change s)
      else entrance_note role (entrance_reworks s) in
    if not (at_launch_limit s role) || offered s role
    then []
    else if is_noted "router" limit s.history
    then []
    else runtime_note "router" note now ∷ []

abbrev launch_note : String → ℕ → String
launch_note role count =
    ◌<>◌
      (◌<>◌ role
        (◌<>◌ " has run " (◌<>◌ (decimal count) " times for this request, the operator's ")))
      (◌<>◌ "launch limit"
        "; it is not offered again for the rest of this request (a reply from the requester starts the count over). Choose among the other connected actions.")

unfoldable pub role_notes : State → Time → List String → List Result
unfolding is_noted runtime_note
role_notes s now [] = []
role_notes s now (role ∷ roles) =
    let more = role_notes s now roles in
    if (role == "done") || (not (at_launch_limit s role) || offered s role)
    then more
    else if is_noted role "launch limit" s.history
    then more
    else runtime_note role (launch_note role (launches s role)) now ∷ more

unfoldable pub launch_limit_notes : State → Time → List Result
unfolding rework_notes role_notes
launch_limit_notes s now = elim s.workflow [
  | none ↦ []
  | some w ↦
      if is_empty w.stages
      then (if is_empty w.launch_limit then [] else role_notes s now (next_actions s))
      else rework_notes s w now
]

abbrev done_choice : String
done_choice =
    "The requested result has been delivered and verified, with no original requirement outstanding."

abbrev pause_choice : String
pause_choice =
    "Pause this request before anything is implemented, because a fact in the requirements report already shows the execution environment falls short of what the agreed verification will build and run. Nothing runs while it is paused; the requester is told what the report says is missing and what the operator would have to prepare, and after the operator enlarges or prepares the environment, 再開 continues this same request from this decision. Choose it only then: when only the demand is unknown, choose the next stage, where the heaviest part of the verification runs once first."

unfoldable pub offered_roles : State → List (String × String) → List (String × String)
offered_roles s [] = []
offered_roles s ((role, purpose) ∷ roles) =
    let more = offered_roles s roles in if offered s role then (role, purpose) ∷ more else more

unfoldable pub add_done : State → List (String × String) → List (String × String)
add_done s choices = if permits s "done" then ("done", done_choice) ∷ choices else choices

unfoldable pub add_pause_choice : State → List (String × String) → List (String × String)
add_pause_choice s choices =
    if environment_pause_open s && permits s environment_pause
    then (environment_pause, pause_choice) ∷ choices
    else choices

-- `none` where nothing can be chosen, the error of the source.
unfoldable pub routing_choices : State → List (String × String) → Option (List (String × String))
unfolding offered_roles add_done add_pause_choice
routing_choices s roles =
    let choices = add_pause_choice s (add_done s (offered_roles s roles)) in
    if is_empty choices then none else some choices
