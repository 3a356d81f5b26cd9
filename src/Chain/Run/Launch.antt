-- ===== src/Chain/Run/Launch.antt =====
-- chain.go, Run: the launch of a role, the round, and the run itself.
use lass_das.Base.{
  ℕ, zero, suc, ◌==◌, Bool, true, not, ◌&&◌, ◌||◌, Option, none, some, List, [], ◌∷◌, ◌++◌,
  if◌then◌else◌, leb, is_empty, last?, is_some,
}
use lass_das.Chain.Types.{Result, no_result, Assignment, State, Time}
use lass_das.Chain.Refusals.{approval_paused}
use lass_das.Chain.Runs.{confirmation_decision, confirming_question}
use lass_das.Chain.Actions.{environment_paused}
use lass_das.Chain.Workflow.Clone.{clone}
use lass_das.Chain.Records.{
  stage_record, instruct, any_error, failed_fast, failed_fast_before, receipt_failure, interruption,
}
use lass_das.Chain.Run.Monad.{
  Chain, Stop, saved, launched, World, Outcome, go_on, halt, M, ◌>>=◌, ◌>>◌, maybe, ret, stop, ask,
  note, check_ended, wait, save, load_state,
}
use lass_das.Chain.Run.Phases.{
  Loop, Flow, again, on, then_flow, question_phase, reply_phase, attempts_reached, notes_phase,
  route_phase, ending_phase, preview_phase, gate_phase,
}

abbrev with_record : Option Result → List Result → List Result
with_record none results = results
with_record (some r) results = results ++ r ∷ []

-- What a launch that returned leaves in the history: its results with the runtime's record, the
-- refusal of a receipt, and a trace of a question that returned nothing.
unfoldable pub launch_results : State → Assignment → Bool → Time → Time → List Result → List Result
launch_results s a asking started now results =
    let returned =
      with_record (stage_record s a results now now) (instruct a.instruction results) in
    let checked = returned ++ receipt_failure s a.role now returned in
    if asking && is_empty checked
    then record no_result {
      role = a.role;
      speaker = "runtime";
      instruction = a.instruction;
      error = "The question's launch returned no result at all.";
      started_at = started;
      finished_at = now;
    }
      ∷ []
    else checked

-- The state behind a launch that returned.
unfoldable pub returned_state : State → Assignment → List Result → List Result → State
returned_state s a results kept = record s {
  step = a.role;
  recovering = is_empty results || any_error results;
  history = s.history ++ kept;
  pending = none;
  pending_since = 0;
}

-- A stop while the results are saved: one more attempt, with the action still pending.
unfoldable pub keep_pending : Chain → State → M (Unit {0})
keep_pending c s = do
  ok ← ask c.saves
  if ok then (note (saved s) >> stop Stop.cancelled) else stop Stop.cancelled

unfoldable pub after_save : Chain → State → Outcome (Unit {0}) × World → Outcome (Unit {0}) × World
unfolding keep_pending
after_save c s (go_on done, w) = (go_on done, w)
after_save c s (halt Stop.cancelled, w) = keep_pending c s w
after_save c s (halt other, w) = (halt other, w)

unfoldable pub save_results : Chain → ℕ → State → State → M (Unit {0})
unfolding save after_save
save_results c fuel s pending w = after_save c pending (save c fuel s w)

unfoldable pub start_launch : Chain → ℕ → State → Assignment → M (State × List Result)
unfolding save
start_launch c fuel s a = do
  now ← ask c.now
  let s' = record s {
    pending = some a;
    pending_since = if leb s.pending_since 0 then now else s.pending_since;
  }
  save c fuel s'
  note (launched a s')
  results ← ask (λ t. c.execute t a s')
  ret (s', results)

-- Pending is saved before the launch, its results after it.
unfoldable pub launch_phase : Chain → ℕ → State → Assignment → Bool → M Loop
unfolding start_launch save_results check_ended wait launch_results returned_state
launch_phase c fuel s a asking = do
  started ← start_launch c fuel s a
  now ← ask c.now
  let kept = launch_results started.0 a asking started.0.pending_since now started.1
  let s' = returned_state started.0 a started.1 kept
  let cut = record s' { pending = some a; pending_since = started.0.pending_since }
  save_results c fuel s' cut
  check_ended c
  let paced =
      failed_fast kept && (failed_fast_before s.history a.role && not (attempts_reached c s'))
  if paced then wait c else ret tt
  let confirming = asking || ((a.role == c.wait_after) && confirming_question s')
  ret (record {
    state = s';
    confirming = confirming;
    check_question =
        not (c.wait_after == "") && ((a.role == c.wait_after) && (not s'.recovering || confirming));
  })

abbrev pub flow_loop : Flow Loop → Loop
flow_loop (again l) = l
flow_loop (on l) = l

-- From the accepted action to the next round.
unfoldable pub act : Chain → ℕ → Loop → State × Assignment → Time → M (Flow Loop)
unfolding ending_phase preview_phase gate_phase launch_phase
act c fuel l (s, a) started = do
  ending_phase c fuel s a started
  let asking = (a.role == c.wait_after) && confirmation_decision s
  shown ← preview_phase c s a asking
  then_flow (gate_phase c fuel l shown.0 shown.1)
      (λ s'. launch_phase c fuel s' shown.1 asking >>= λ l'. ret (on l'))

-- One round of the loop, behind the test of the context.
unfoldable pub round_body : Chain → ℕ → Loop → M (Flow Loop)
unfolding question_phase reply_phase notes_phase route_phase act attempts_reached
round_body c fuel l = then_flow (question_phase c fuel l) (λ s. do
  s' ← reply_phase c fuel s
  if attempts_reached c s' then stop Stop.attempt_limit_reached else ret tt
  started ← ask c.now
  s'' ← notes_phase c fuel s'
  then_flow (route_phase c fuel l s'' started) (λ chosen. act c fuel l chosen started))

unfoldable pub round : Chain → ℕ → Loop → M (Flow Loop)
unfolding check_ended round_body
round c fuel l = check_ended c >> round_body c fuel l

unfoldable pub rounds : Chain → ℕ → ℕ → Loop → M (Unit {0})
unfolding round
rounds c fuel zero l = stop Stop.out_of_fuel
rounds c fuel (suc n) l = round c fuel l >>= λ flow. rounds c fuel n (flow_loop flow)

-- A state that is done or held starts nothing.
unfoldable pub held : State → Option Stop
held s =
    if s.done
    then some Stop.finished
    else if not (approval_paused s == "")
    then some Stop.approval_paused
    else if is_some s.awaiting_approval
    then some Stop.awaiting_approval
    else if s.waiting
    then some Stop.waiting
    else if environment_paused s
    then some Stop.environment_paused
    else none

unfoldable pub attach : Chain → ℕ → State → M State
unfolding save
attach c fuel s =
    if is_some s.workflow
    then ret s
    else maybe c.workflow (ret s) (λ w.
      if not (is_empty s.history) || (is_some s.pending || not (s.step == ""))
      then stop Stop.refused_workflow
      else (let s' = record s { workflow = some (clone w) } in save c fuel s' >> ret s'))

-- An action that was pending is noted as cut short before anything is decided.
unfoldable pub recover_pending : Chain → ℕ → State → M State
unfolding save
recover_pending c fuel s = maybe s.pending (ret s) (λ a. do
  activity ← ask (λ t. elim c.activity [ none ↦ "" | some read ↦ read t a.role ])
  now ← ask c.now
  let s' = record s {
    step = a.role;
    recovering = true;
    history = s.history ++ interruption s a activity now ∷ [];
    pending = none;
    pending_since = 0;
  }
  save c fuel s'
  ret s')

-- The loop's variables as a start finds them.
unfoldable pub start_loop : Chain → State → Loop
start_loop c s =
    let confirming = confirming_question s in
    let check =
      not (c.wait_after == "") && ((s.step == c.wait_after) && (not s.recovering || confirming)) in
    record {
      state = s;
      confirming = confirming;
      check_question = elim (last? s.history) [
        | none ↦ check
        | some r ↦ check && ((r.role == c.wait_after) && not (r.speaker == "requester"))
      ];
    }

-- What follows for a state that is not held.
unfoldable pub carry_on : Chain → ℕ → ℕ → State → M (Unit {0})
unfolding attach recover_pending start_loop rounds
carry_on c fuel n s = do
  attached ← attach c fuel s
  ready ← recover_pending c fuel attached
  rounds c fuel n (start_loop c ready)

-- `Run`, with fuel for the rounds and for the attempts of one save.
unfoldable pub run : Chain → ℕ → ℕ → M (Unit {0})
unfolding load_state held carry_on
run c fuel n = do s ← load_state c fuel; maybe (held s) (carry_on c fuel n s) stop
