-- ===== src/Chain/Run/Kept.antt =====
-- chain.go, Run: an invariant of the calls, the saves and the launches, carried through a round.
use lass_das.Base.{ℕ, Bool, ◌≢◌}
use lass_das.Chain.Types.{Assignment, State, Time}
use lass_das.Chain.Routers.{Routed, assigned, failed}
use lass_das.Chain.Run.Monad.{
  Chain, QuestionObservation, Gate, passed, refused, awaiting, paused, gate_error, Stop, saved,
  World, Outcome, go_on, halt, stop, ask, note, check_ended, wait, save,
}
use lass_das.Chain.Run.Phases.{
  Loop, look, settle_question, question_phase, take_reply, reply_phase, notes_phase, routed_to,
  route_phase, ending_phase, preview_phase, gate_result, gate_phase,
}
use lass_das.Chain.Run.Launch.{
  keep_pending, after_save, save_results, start_launch, launch_phase, act, round_body, attach,
  recover_pending,
}
use lass_das.Chain.Run.Rules.{Good, Keeps, keeps_rules}

-- What an invariant needs: every call, every write to the store and every launch keeps it, and
-- every reason to halt but the model's own is allowed.
pub record IsKept (P : World → Type 0) (H : Stop → Type 0) (c : Chain) (fuel : ℕ) : Type 1 where
  pub keeps_ask : {A : Type 0} (f : ℕ → A) → Keeps P H (ask f)
  pub keeps_saved : (s : State) → Keeps P H (note (saved s))
  pub keeps_save : (s : State) → Keeps P H (save c fuel s)
  pub keeps_launch : (s : State) (a : Assignment) → Keeps P H (start_launch c fuel s a)
  pub allowed : (s : Stop) → s ≢ Stop.out_of_fuel → H s

module _ {P : World → Type 0} {H : Stop → Type 0} {c : Chain} {fuel : ℕ}
    (k : IsKept P H c fuel) where
  halts : {A : Type 0} (s : Stop) → s ≢ Stop.out_of_fuel → Keeps P H (stop {A = A} s)
  unfolding stop
  halts s fine = record { at = λ w h. (h, k.allowed s fine) }

  stop_finished : {A : Type 0} → Keeps P H (stop {A = A} Stop.finished)
  stop_finished = halts Stop.finished (λ e. cc)

  stop-approval_paused : {A : Type 0} → Keeps P H (stop {A = A} Stop.approval_paused)
  stop-approval_paused = halts Stop.approval_paused (λ e. cc)

  stop_awaiting_approval : {A : Type 0} → Keeps P H (stop {A = A} Stop.awaiting_approval)
  stop_awaiting_approval = halts Stop.awaiting_approval (λ e. cc)

  stop_waiting : {A : Type 0} → Keeps P H (stop {A = A} Stop.waiting)
  stop_waiting = halts Stop.waiting (λ e. cc)

  stop-environment_paused : {A : Type 0} → Keeps P H (stop {A = A} Stop.environment_paused)
  stop-environment_paused = halts Stop.environment_paused (λ e. cc)

  stop_attempt_limit_reached : {A : Type 0} → Keeps P H (stop {A = A} Stop.attempt_limit_reached)
  stop_attempt_limit_reached = halts Stop.attempt_limit_reached (λ e. cc)

  stop_cancelled : {A : Type 0} → Keeps P H (stop {A = A} Stop.cancelled)
  stop_cancelled = halts Stop.cancelled (λ e. cc)

  stop_refused_workflow : {A : Type 0} → Keeps P H (stop {A = A} Stop.refused_workflow)
  stop_refused_workflow = halts Stop.refused_workflow (λ e. cc)

  stop_no_gate : {A : Type 0} → Keeps P H (stop {A = A} Stop.no_gate)
  stop_no_gate = halts Stop.no_gate (λ e. cc)

  stop_gate_failed : {A : Type 0} → Keeps P H (stop {A = A} Stop.gate_failed)
  stop_gate_failed = halts Stop.gate_failed (λ e. cc)

  pub check_ended-Keeps : Keeps P H (check_ended c)
  unfolding check_ended
  check_ended-Keeps = search (keeps_rules, k.keeps_ask, stop_cancelled)

  wait-Keeps : Keeps P H (wait c)
  unfolding wait
  wait-Keeps = check_ended-Keeps

  look-Keeps : (s : State) → Keeps P H (look c s)
  unfolding look
  look-Keeps s = search (keeps_rules, k.keeps_ask)

  settle_question-Keeps :
      (l : Loop) (q : QuestionObservation) → Keeps P H (settle_question c fuel l q)
  unfolding settle_question
  settle_question-Keeps l q = search (keeps_rules, k.keeps_ask, k.keeps_save, stop_waiting) depth 9

  question_phase-Keeps : (l : Loop) → Keeps P H (question_phase c fuel l)
  unfolding question_phase
  question_phase-Keeps l =
      search (keeps_rules, look-Keeps, wait-Keeps, settle_question-Keeps) depth 9

  take_reply-Keeps : (s : State) (answer : _) → Keeps P H (take_reply c fuel s answer)
  unfolding take_reply
  take_reply-Keeps s answer = search (keeps_rules, k.keeps_ask, k.keeps_save) depth 9

  reply_phase-Keeps : (s : State) → Keeps P H (reply_phase c fuel s)
  unfolding reply_phase
  reply_phase-Keeps s = search (keeps_rules, k.keeps_ask, take_reply-Keeps) depth 9

  notes_phase-Keeps : (s : State) → Keeps P H (notes_phase c fuel s)
  unfolding notes_phase
  notes_phase-Keeps s = search (keeps_rules, k.keeps_ask, k.keeps_save) depth 9

  routed_to-Keeps :
      (l : Loop) (s : State) (t : Time) (r : Routed) → Keeps P H (routed_to c fuel l s t r)
  unfolding routed_to
  routed_to-Keeps l s t (assigned a) = search keeps_rules
  routed_to-Keeps l s t (failed e) =
      search (keeps_rules, k.keeps_ask, k.keeps_save, wait-Keeps) depth 9

  route_phase-Keeps : (l : Loop) (s : State) (t : Time) → Keeps P H (route_phase c fuel l s t)
  unfolding route_phase
  route_phase-Keeps l s t =
      search (keeps_rules, k.keeps_ask, check_ended-Keeps, routed_to-Keeps) depth 9

  ending_phase-Keeps :
      (s : State) (a : Assignment) (t : Time) → Keeps P H (ending_phase c fuel s a t)
  unfolding ending_phase
  ending_phase-Keeps s a t =
      search (keeps_rules, k.keeps_ask, k.keeps_save, stop_finished, stop-environment_paused) depth
        9

  preview_phase-Keeps : (s : State) (a : Assignment) (b : Bool) → Keeps P H (preview_phase c s a b)
  unfolding preview_phase
  preview_phase-Keeps s a b = search (keeps_rules, k.keeps_ask, check_ended-Keeps) depth 12

  gate_result-Keeps :
      (l : Loop) (a : Assignment) (r : State × Gate) → Keeps P H (gate_result c fuel l a r)
  unfolding gate_result
  gate_result-Keeps l a (s, passed) = search keeps_rules
  gate_result-Keeps l a (s, refused reason) =
      search (keeps_rules, k.keeps_ask, k.keeps_save) depth 9
  gate_result-Keeps l a (s, awaiting) = search (keeps_rules, k.keeps_save, stop_awaiting_approval)
  gate_result-Keeps l a (s, paused) = search (keeps_rules, k.keeps_save, stop-approval_paused)
  gate_result-Keeps l a (s, gate_error) = search (keeps_rules, stop_gate_failed)

  gate_phase-Keeps : (l : Loop) (s : State) (a : Assignment) → Keeps P H (gate_phase c fuel l s a)
  unfolding gate_phase
  gate_phase-Keeps l s a =
      search (keeps_rules, k.keeps_ask, gate_result-Keeps, stop_no_gate) depth 9

  keep_pending-Keeps : (s : State) → Keeps P H (keep_pending c s)
  unfolding keep_pending
  keep_pending-Keeps s = search (keeps_rules, k.keeps_ask, k.keeps_saved, stop_cancelled) depth 9

  after_save-Good :
      (s : State) (r : Outcome (Unit {0}) × World) → Good P H r → Good P H (after_save c s r)
  unfolding after_save
  after_save-Good s (go_on u, w) h = h
  after_save-Good s (halt Stop.cancelled, w) h = (keep_pending-Keeps s).at w h.0
  after_save-Good s (halt _, w) h = h

  save_results-Keeps : (s pending : State) → Keeps P H (save_results c fuel s pending)
  unfolding save_results
  save_results-Keeps s pending = record {
    at = λ w h. after_save-Good pending _ ((k.keeps_save s).at w h);
  }

  launch_phase-Keeps :
      (s : State) (a : Assignment) (b : Bool) → Keeps P H (launch_phase c fuel s a b)
  unfolding launch_phase
  launch_phase-Keeps s a b =
      search (keeps_rules, k.keeps_ask, k.keeps_launch, save_results-Keeps, check_ended-Keeps) depth
        12

  act-Keeps : (l : Loop) (x : State × Assignment) (t : Time) → Keeps P H (act c fuel l x t)
  unfolding act
  act-Keeps l (s, a) t =
      search
        (keeps_rules, ending_phase-Keeps, preview_phase-Keeps, gate_phase-Keeps, launch_phase-Keeps)
        depth 12

  pub round_body-Keeps : (l : Loop) → Keeps P H (round_body c fuel l)
  unfolding round_body
  round_body-Keeps l =
      search
        (
          keeps_rules, k.keeps_ask, question_phase-Keeps, reply_phase-Keeps, notes_phase-Keeps,
          route_phase-Keeps, act-Keeps, stop_attempt_limit_reached,
        )
        depth 14

  pub attach-Keeps : (s : State) → Keeps P H (attach c fuel s)
  unfolding attach
  attach-Keeps s = search (keeps_rules, k.keeps_save, stop_refused_workflow) depth 9

  pub recover_pending-Keeps : (s : State) → Keeps P H (recover_pending c fuel s)
  unfolding recover_pending
  recover_pending-Keeps s = search (keeps_rules, k.keeps_ask, k.keeps_save) depth 12
