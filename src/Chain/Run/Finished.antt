-- ===== src/Chain/Run/Finished.antt =====
-- chain.go, Run, over stages.go, stageActions: a round that goes on with done.
use lass_das.Base.{
  ℕ, String, ◌==◌, ==→≡, true, false, none, some, List, [], ◌∷◌, ◌≡◌, ◌≢◌, sym, inl, inr,
  Bool-cases, In, is_empty, contains_text, arith,
}
use lass_das.Chain.Types.{Assignment, Workflow, State, Time}
use lass_das.Chain.Runs.{stage_runs}
use lass_das.Chain.Actions.{stage_actions}
use lass_das.Chain.Actions.Done.{AllStand, stage_actions-done}
use lass_das.Chain.Workflow.Ordered.{Roles, validate_stages}
use lass_das.Chain.Offers.{next_actions, permits, offered}
use lass_das.Chain.Run.Monad.{Chain, World, go_on}
use lass_das.Chain.Run.Phases.{Loop, on, route_phase}
use lass_das.Chain.Run.Routed.{route_phase-offered}

contains_text→In : (x : String) (xs : List String) → contains_text x xs ≡ true → In x xs
unfolding contains_text
contains_text→In x [] h = cc
contains_text→In x (y ∷ xs) h = elim (Bool-cases (y == x)) [
  | inl e ↦ inl (sym (==→≡ y x e))
  | inr e ↦ inr (contains_text→In x xs (rw e at h))
]

offered-permits : (s : State) (action : String) → offered s action ≡ true → permits s action ≡ true
unfolding offered
offered-permits s action h = ground (arith, h)

permitted-stage_actions :
    (w : Workflow) (s : State) (action : String)
    → is_empty w.stages ≡ false
    → s.workflow ≡ some w
    → permits s action ≡ true
    → In action (stage_actions s)
unfolding permits next_actions
permitted-stage_actions w s action ran e h =
    contains_text→In action (stage_actions s) (rw (permits, e, next_actions, e, ran) at h)

-- Whatever the router is: over an ordered run that validateStages accepts and whose question role
-- is not named done, a round of Run goes on with done only when some launch of every stage ended
-- cleanly and no launch after it was of that stage or of one before it.
pub route_phase-done :
    (c : Chain) (fuel : ℕ) (l : Loop) (roles : Roles) (wf : Workflow) (s s' : State)
    (started : Time) (a : Assignment) (w w' : World)
    → validate_stages roles wf ≡ none
    → is_empty wf.stages ≡ false
    → s.workflow ≡ some wf
    → wf.question ≢ "done"
    → route_phase c fuel l s started w ≡ (go_on (on (s', a)), w')
    → a.role ≡ "done"
    → AllStand wf.stages (stage_runs s)
route_phase-done c fuel l roles wf s s' started a w w' valid ran e q h done =
    let allowed = route_phase-offered c fuel l s s' started a w w' h in
    let offered_done : offered s "done" ≡ true = rw (← done) (allowed.1) in
    stage_actions-done roles wf s valid ran e q
      (permitted-stage_actions wf s "done" ran e (offered-permits s "done" offered_done))
