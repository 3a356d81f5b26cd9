-- ===== src/Chain/Workflow/Connected.antt =====
-- workflow.go, Validate and nextActions: the connected roles.
use lass_das.Base.{
  String, ◌==◌, ==→≡, ≡→==, Bool, true, false, not, ◌&&◌, none, some, List, [], ◌∷◌, ◌≡◌, ◌≢◌, ◌⊎◌,
  inl, inr, Bool-cases, All, is_empty, has_key, lookup_or, arith,
}
use lass_das.Chain.Types.{Workflow, State}
use lass_das.Chain.Workflow.Ordered.{Roles}
use lass_das.Chain.Workflow.Graph.{
  is_connected, check_targets, check_source, check_section, validate_graph, validate,
}
use lass_das.Chain.Offers.{next_actions}

-- What a connection may name: a configured role with both connections of its own, or done where
-- the request may be completed.
pub data IsTarget (roles : Roles) (w : Workflow) (completion : Bool) (action : String)
    : Type 0 where
  done : action ≡ "done" → completion ≡ true → IsTarget roles w completion action
  role :
      has_key action roles ≡ true
      → action ≢ "done"
      → is_connected w action ≡ true
      → IsTarget roles w completion action

check_targets-All :
    (roles : Roles) (w : Workflow) (source : String) (completion : Bool) (targets : List String)
    → check_targets roles w source completion targets ≡ none
    → All (IsTarget roles w completion) targets
unfolding check_targets
check_targets-All roles w source completion [] h = tt
check_targets-All roles w source completion (target ∷ targets) h = (
  elim (Bool-cases ((target == "done") && completion)) [
    | inl e ↦ IsTarget.done (==→≡ target "done" (ground (arith, e))) (ground (arith, e))
    | inr e ↦
        IsTarget.role (ground (arith, e, h)) (λ d. ground (arith, e, h, ≡→== target "done" d))
          (ground (arith, e, h))
  ],
  check_targets-All roles w source completion targets (ground (arith, h)),
)

check_source-All :
    (roles : Roles) (w : Workflow) (source : String) (completion : Bool) (targets : List String)
    → check_source roles w source completion targets ≡ none
    → All (IsTarget roles w completion) targets
unfolding check_source
check_source-All roles w source completion targets h =
    check_targets-All roles w source completion targets (ground (arith, h))

check_section-All :
    (roles : Roles) (w : Workflow) (section step : String) (completion : Bool)
    (connections : List (String × List String))
    → check_section roles w section completion connections ≡ none
    → All (IsTarget roles w completion) (lookup_or [] step connections)
unfolding check_section lookup_or
check_section-All roles w section step completion [] h = tt
check_section-All roles w section step completion ((source, targets) ∷ connections) h =
    elim (Bool-cases (source == step)) [
      | inl e ↦ rw e (check_source-All roles w source completion targets (ground (arith, h)))
      | inr e ↦
          rw e (check_section-All roles w section step completion connections (ground (arith, h)))
    ]

-- What Validate found of the connections.
record IsGraph (roles : Roles) (w : Workflow) : Type 0 where
  starts : check_source roles w "start" false w.start ≡ none
  afters : check_section roles w "after" true w.after ≡ none
  recovers : check_section roles w "recover" false w.recover ≡ none

validate-IsGraph :
    (roles : Roles) (w : Workflow)
    → is_empty w.stages ≡ true
    → validate roles w ≡ none
    → IsGraph roles w
unfolding validate validate_graph
validate-IsGraph roles w e h = record {
  starts = ground (arith, e, h);
  afters = ground (arith, e, h);
  recovers = ground (arith, e, h);
}

starts-some : (roles : Roles) (w : Workflow) → IsGraph roles w → is_empty w.start ≡ false
unfolding check_source
starts-some roles w g = ground (arith, g.starts)

connected-some :
    (w : Workflow) (step : String)
    → is_connected w step ≡ true
    → (is_empty (lookup_or [] step w.after) ≡ false)
      × (is_empty (lookup_or [] step w.recover) ≡ false)
unfolding is_connected
connected-some w step h = (ground (arith, h), ground (arith, h))

-- Over connected roles that Validate accepts, at the start and behind every role that has both of
-- its connections, there is a next action; each is a configured role with both connections again,
-- or done, and done only behind a role that did not fail.
pub next_actions-IsTarget :
    (roles : Roles) (w : Workflow) (s : State)
    → validate roles w ≡ none
    → is_empty w.stages ≡ true
    → s.workflow ≡ some w
    → (s.step ≡ "") ⊎ (is_connected w s.step ≡ true)
    → (is_empty (next_actions s) ≡ false)
      × All (IsTarget roles w (not (s.step == "") && not s.recovering)) (next_actions s)
unfolding next_actions
next_actions-IsTarget roles w s valid graph e place =
    let g = validate-IsGraph roles w graph valid in
    elim (Bool-cases (s.step == "")) [
      | inl start ↦
          rw (e, graph, start)
            (starts-some roles w g, check_source-All roles w "start" false w.start g.starts)
      | inr step ↦
          let (some_after, some_recover) = connected-some w s.step (connected step place) in
          elim (Bool-cases s.recovering) [
            | inl failed ↦
                rw (e, graph, step, failed)
                  (
                    some_recover,
                    check_section-All roles w "recover" s.step false w.recover g.recovers,
                  )
            | inr clean ↦
                rw (e, graph, step, clean)
                  (some_after, check_section-All roles w "after" s.step true w.after g.afters)
          ]
    ]
  where
    connected :
        (s.step == "") ≡ false
        → (s.step ≡ "") ⊎ (is_connected w s.step ≡ true)
        → is_connected w s.step ≡ true
    connected step (inl start) = ground (arith, ≡→== s.step "" start)
    connected step (inr h) = h
