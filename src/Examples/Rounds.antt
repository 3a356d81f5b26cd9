-- ===== src/Examples/Rounds.antt =====
-- The theorems about decisions, counts and the loop of a request, at the sample.
use lass_das.Base.{
  Bool-cases, In, String, [], arith, contains_text, false, has_key, lookup_or, if◌then◌else◌, inl,
  inr, is_some, leb, none, none-ne-some, not, pos, refl, some, some_inj, true, ℕ, ◌&&◌, ◌++◌, ◌==◌,
  ◌∷◌, ◌≡◌, ◌≢◌, ◌≤◌,
}
use lass_das.Chain.Types.{no_result, State}
use lass_das.Chain.Runs.{
  stage_runs, runs_of, stage_at, change_answered, confirmation_decision, confirmed_by,
  confirmation_reworks, since_reply,
}
use lass_das.Chain.Actions.{stage_actions, next_stage, environment_pause_open}
use lass_das.Chain.Endings.{
  Ending, failed_in_a_row, last_ending, join_notes, since_latest_reply, with_pending_note,
  is_stop_note,
}
use lass_das.Chain.Refusals.{approval_failure_reason, approval_paused, pause_approval}
use lass_das.Chain.Refusals.Reasons.{refusal-approval_failure_reason}
use lass_das.Chain.Refusals.Pauses.{pause_approval-held}
use lass_das.Chain.Records.{refusal}
use lass_das.Chain.Endings.Kinds.{Counted, counted_state, counted_launches, failed_in_a_row-Counted}
use lass_das.Chain.Offers.{
  next_actions, offered, is_unavailable, rework_notes, routing_choices, offered_roles, permits,
  at_launch_limit, add_done, add_pause_choice,
}
use lass_das.Chain.Offers.Choices.{offered_some}
use lass_das.Chain.Offers.Limits.{rework_notes-once}
use lass_das.Chain.Routers.{Judge, Answer, Routed, decision_next, stage_next, decision_next-offered}
use lass_das.Chain.Run.Monad.{Chain, Stop, World, go_on, halt, ◌>>=◌, check_ended}
use lass_das.Chain.Run.Launch.{run, held}
use lass_das.Chain.Run.WriteAhead.{WriteAhead, run-WriteAhead}
use lass_das.Chain.Run.Held.{Rests, EndsAtRest, run-held}
use lass_das.Chain.Run.Returns.{run_returns}
use lass_das.Chain.Run.Routed.{route_phase-offered}
use lass_das.Chain.Run.Finished.{route_phase-done}
use lass_das.Chain.Actions.Done.{AllStand}
use lass_das.Chain.Workflow.Ordered.{
  validate_stages, check_names, check_failures, check_last, check_question_role, check_pause,
  check_confirm, check_after_ask, kinds_of, first_kind, has_confirm,
}
use lass_das.Chain.Run.Phases.{Loop, on, route_phase, hold, routed_to}
use lass_das.Examples.Sample.{
  stages, roles, workflow, answered, delivered, repeated, failing, new_state,
}

asking_offered : In "ask" (next_actions answered)
unfolding next_actions stage_actions ◌==◌ stage_at stage_runs runs_of next_stage change_answered
asking_offered = inr (inl refl)

offered_some_example :
    (other : String) × In other (next_actions answered) × (offered answered other ≡ true)
unfolding is_unavailable ◌==◌ confirmation_decision stage_runs runs_of confirmed_by
offered_some_example = offered_some answered "ask" asking_offered refl

abbrev asker : Judge
asker s choices = Answer.chose "ask"

asked_now :
    decision_next (some asker) roles answered
    ≡ Routed.assigned (record { role = "ask"; instruction = "" })
unfolding decision_next routing_choices environment_pause_open ◌==◌ offered_roles offered permits
    next_actions stage_actions stage_at stage_runs runs_of next_stage change_answered is_unavailable
    confirmation_decision confirmed_by at_launch_limit has_key contains_text add_done
    add_pause_choice confirmation_reworks since_reply
asked_now = refl

decision_next-offered_example : offered answered "ask" ≡ true
decision_next-offered_example =
    decision_next-offered (some asker) roles answered (record { role = "ask"; instruction = "" })
      (record { question_done = λ e. cc; question_pause = λ e. cc; first_pause = λ e. cc })
      asked_now

rework_notes-once_example :
    rework_notes
      (record repeated { history = repeated.history ++ rework_notes repeated workflow 1 })
      workflow
      2
    ≡ []
rework_notes-once_example = rework_notes-once repeated workflow 1 2

abbrev failing_end : Ending
failing_end = record {
  approval_failure = "";
  error = "";
  role = "work";
  attempt = 3;
  interrupted = true;
  forced = false;
  timed_out = false;
  no_model = false;
  repeated_failures = pos 0;
  activity = "";
  kinds = record { forced = 0; stopped = 1; timed_out = 0; no_model = 0; errors = 2 };
}

failed : (failed_in_a_row failing).0 ≡ some failing_end
unfolding failed_in_a_row last_ending join_notes stage_runs runs_of since_latest_reply
    with_pending_note ◌==◌ approval_failure_reason is_stop_note
failed = refl

failed_in_a_row-Counted_example :
    Counted
      (counted_state failing).history
      (counted_launches failing)
      failing_end
      (failed_in_a_row failing).1
failed_in_a_row-Counted_example = failed_in_a_row-Counted failing failing_end failed

-- A chain whose router takes what the ordered run offers, whose store refuses one save and whose
-- context ends in the middle of the run.
abbrev observed : Chain
observed = record {
  workflow = some workflow;
  wait_after = "ask";
  question_no_post_limit = pos 3;
  attempt_limit = pos 0;
  now = λ t. t;
  ended = λ t. leb 40 t;
  load = λ t. some new_state;
  saves = λ t. not (leb 3 t && leb t 3);
  next = λ t s.
      stage_next (some (λ s'. Routed.assigned (record { role = "elicit"; instruction = "" }))) s;
  execute = λ t a s.
      record no_result { role = a.role; speaker = a.role; started_at = t; finished_at = t } ∷ [];
  question_posted = none;
  requester_reply = none;
  activity = none;
  before_approval = none;
  preview_up = none;
  error_text = λ e. "";
}

abbrev start : World
start = record { tick = 0; trace = [] }

run-WriteAhead_example : WriteAhead (run observed 50 50 start).1.trace
run-WriteAhead_example = run-WriteAhead observed 50 50 start tt

-- The same chain with a request that is done, whose first two loads fail.
abbrev finished_chain : Chain
finished_chain = record observed {
  load = λ t. if leb 3 t then some (record delivered { done = true }) else none;
}

loaded_held : (t : ℕ) (s : State) → finished_chain.load t ≡ some s → Rests s
loaded_held t s e = elim (Bool-cases (leb 3 t)) [
  | inl late ↦ inl (rw (← some_inj (rw late at e)) refl)
  | inr early ↦ absurd (none-ne-some (rw early at e))
]

run-held_example :
    ((run finished_chain 9 1 start).1.trace ≡ [])
    × EndsAtRest finished_chain (run finished_chain 9 1 start).0
run-held_example = run-held finished_chain 9 1 start loaded_held

ended_from_40 : (t : ℕ) → 40 ≤ t → leb 40 t ≡ true
ended_from_40 t p = ground arith

run_returns_example : (run observed 50 50 start).0 ≢ halt Stop.out_of_fuel
run_returns_example = run_returns observed 40 50 50 start ended_from_40 (omega arith) (omega arith)

refusal-approval_failure_reason_example :
    approval_failure_reason (refusal "deliver" "deliver" "bundle_credential" 7)
    ≡ "bundle_credential"
refusal-approval_failure_reason_example =
    refusal-approval_failure_reason "deliver" "deliver" "bundle_credential" 7
      (inr (inr (inr (inr (inr (inl refl))))))

pause_approval-held_example :
    (approval_paused (pause_approval answered "approval_expired" 7) ≡ "approval_expired")
    × (is_some (held (pause_approval answered "approval_expired" 7)) ≡ true)
pause_approval-held_example =
    pause_approval-held answered "approval_expired" "期限が切れた。再開すると計画から作り直して再投稿する" 7 (inl refl)

asking_is_offered : offered answered "ask" ≡ true
unfolding environment_pause_open ◌==◌ offered permits is_unavailable confirmation_decision
    stage_runs runs_of confirmed_by contains_text next_actions stage_actions next_stage
    change_answered at_launch_limit
asking_is_offered = refl

-- The chain with a router that always asks.
abbrev asking_chain : Chain
asking_chain = record observed {
  next = λ t s. Routed.assigned (record { role = "ask"; instruction = "" });
}

abbrev first_round : Loop
first_round = record { state = answered; confirming = false; check_question = false }

routed : route_phase asking_chain 50 first_round answered 0 start ≡ (
  go_on (on (answered, record { role = "ask"; instruction = "" })),
  record { tick = 2; trace = [] },
)
unfolding route_phase hold routed_to ◌>>=◌ check_ended
routed = rw asking_is_offered

route_phase-offered_example :
    (asking_chain.next 0 answered ≡ Routed.assigned (record { role = "ask"; instruction = "" }))
    × (offered answered "ask" ≡ true)
    × (answered ≡ answered)
route_phase-offered_example =
    route_phase-offered asking_chain 50 first_round answered answered 0
      (record { role = "ask"; instruction = "" }) start (record { tick = 2; trace = [] }) routed

done_is_offered : offered delivered "done" ≡ true
unfolding environment_pause_open ◌==◌ offered permits is_unavailable confirmation_decision
    stage_runs runs_of confirmed_by contains_text next_actions stage_actions next_stage
    change_answered at_launch_limit
done_is_offered = refl

abbrev done_chain : Chain
done_chain = record observed {
  next = λ t s. Routed.assigned (record { role = "done"; instruction = "" });
}

routed_done : route_phase done_chain 50 first_round delivered 0 start ≡ (
  go_on (on (delivered, record { role = "done"; instruction = "" })),
  record { tick = 2; trace = [] },
)
unfolding route_phase hold routed_to ◌>>=◌ check_ended
routed_done = rw done_is_offered

valid_run : validate_stages roles workflow ≡ none
unfolding validate_stages ◌==◌ check_names check_failures check_last check_question_role check_pause
    check_confirm check_after_ask kinds_of first_kind has_confirm has_key lookup_or stage_at
valid_run = refl

route_phase-done_example : AllStand stages (stage_runs delivered)
route_phase-done_example =
    route_phase-done done_chain 50 first_round roles workflow delivered delivered 0
      (record { role = "done"; instruction = "" }) start (record { tick = 2; trace = [] }) valid_run
      refl refl (λ e. cc) routed_done refl
