-- ===== src/Chain/Actions/Gate.antt =====
-- stages.go: what may run after a stage that asks about every change.
use lass_das.Base.{
  ℕ, suc, ◌<◌, ◌≡◌, refl, sym, ◌∙◌, String, ◌==◌, ==→≡, ≡→==, ==_refl, true, false, none, some,
  List, [], ◌∷◌, arith, inl, inr, Bool-cases, Option-cases, In, ◌≢◌, ◌⊎◌, last?, drop, any, all,
  some_inj, none-ne-some, ap, ap₂, subst₂, lt→ltb,
}
use lass_das.Chain.Types.{Stage, Workflow, State, model_stage, command_stage}
use lass_das.Chain.Runs.{
  StageRun, no_run, stage_from, stage_at, stage_runs, stages_of, question_of, first_name,
  change_answered,
}
use lass_das.Chain.Workflow.Ordered.{Roles, check_confirm, check_last, validate_stages}
use lass_das.Chain.Actions.{stage_actions, actions_after, last_run, after_clean, next_stage}
use lass_das.Chain.Actions.Progress.{is_named, undoes, stands}
use lass_das.Chain.Actions.Validated.{validate_stages-IsStage}
use lass_das.Chain.Actions.Done.{All-In, next-done, stands-last, stage_from-last, last?-In}
use lass_das.Chain.Actions.Answers.{answered_since, change_answered-since}

-- What the checks give of a stage that confirms the change.
record IsConfirming (question : String) (stage : Stage) (index : ℕ) : Type 0 where
  is_model : stage.kind ≡ model_stage
  later : 0 < index
  asks : question ≢ ""

check_confirm-IsConfirming :
    (all stages : List Stage) (question name : String) (i : ℕ) (found : Stage × ℕ)
    → check_confirm all question i stages ≡ none
    → stage_from i stages name ≡ some found
    → found.0.confirm ≡ true
    → IsConfirming question found.0 found.1
unfolding check_confirm stage_from
check_confirm-IsConfirming all [] question name i found h e c = absurd (none-ne-some e)
check_confirm-IsConfirming all (stage ∷ stages) question name i found h e c =
    elim (Bool-cases (stage.name == name)) [
      | inr more ↦
          check_confirm-IsConfirming all stages question name (suc i) found (ground arith)
            (rw more at e) c
      | inl here ↦ at_head (some_inj (rw here at e)) c
    ]
  where
    at_head :
        {found : Stage × ℕ}
        → (stage, i) ≡ found
        → found.0.confirm ≡ true
        → IsConfirming question found.0 found.1
    at_head same c = rw (← same) (confirming (rw (← same) at c))
      where
        confirming : stage.confirm ≡ true → IsConfirming question stage i
        confirming c = record {
          is_model = ==→≡ _ _ (ground arith);
          later = ground arith;
          asks = λ q. ground (arith, ≡→== question "" q);
        }

last_is_command :
    (roles : Roles) (w : Workflow) (last : Stage)
    → validate_stages roles w ≡ none
    → last? w.stages ≡ some last
    → last.kind ≡ command_stage
unfolding validate_stages check_last
last_is_command roles w last h e = ==→≡ _ _ (ground (arith, e))

any_named :
    (stages : List Stage) (stage : Stage)
    → In stage stages
    → any (is_named stage.name) stages ≡ true
any_named [] stage h = absurd h
any_named (s ∷ stages) stage (inl e) = rw (← e) (ground (arith, ==_refl stage.name))
any_named (s ∷ stages) stage (inr h) = ground (arith, any_named stages stage h)

confirm_fact :
    (roles : Roles) (w : Workflow) (name : String) (stage : Stage) (index : ℕ)
    → validate_stages roles w ≡ none
    → stage_at w.stages name ≡ some (stage, index)
    → stage.confirm ≡ true
    → IsConfirming w.question stage index
unfolding validate_stages stage_at
confirm_fact roles w name stage index h e c =
    check_confirm-IsConfirming w.stages w.stages w.question name 0 (stage, index) (ground arith) e c

stage_at-last :
    (stages : List Stage) (name : String) (found : Stage × ℕ) (last : Stage)
    → stage_at stages name ≡ some found
    → last? stages ≡ some last
    → (last ≡ found.0) ⊎ In last (drop (suc found.1) stages)
unfolding stage_at
stage_at-last stages name found last e l =
    let (k, at, place) = stage_from-last 0 stages name found last e l in
    let same : found.1 ≡ k = omega (arith, at) in rw same place

last?-nil : {A : Type 0} (xs : List A) → last? xs ≡ none → xs ≡ []
last?-nil [] e = refl
last?-nil (x ∷ []) e = cc
last?-nil (x ∷ y ∷ xs) e = absurd (impossible (last?-nil (y ∷ xs) e))
  where
    impossible : y ∷ xs ≡ [] → ⊥
    impossible e = cc

stage_at-nil : (name : String) → stage_at [] name ≡ none
unfolding stage_at stage_from
stage_at-nil name = refl

last_behind :
    (roles : Roles) (w : Workflow) (name : String) (stage last : Stage) (index : ℕ)
    → validate_stages roles w ≡ none
    → stage_at w.stages name ≡ some (stage, index)
    → stage.confirm ≡ true
    → last? w.stages ≡ some last
    → In last (drop (suc index) w.stages)
last_behind roles w name stage last index h e c l =
    elim (stage_at-last w.stages name (stage, index) last e l) [
      | inr behind ↦ behind
      | inl same ↦ absurd (
          distinct (
            sym (confirm_fact roles w name stage index h e c).is_model
            ∙ ap (λ (s : Stage). s.kind) (sym same)
            ∙ last_is_command roles w last h l))
    ]
  where
    distinct : ◌≡◌ {A = String} model_stage command_stage → ⊥
    distinct e = cc

-- After a stage that confirms the change something is left to run.
confirm-next :
    (roles : Roles) (w : Workflow) (s : State) (run : StageRun) (stage : Stage) (index : ℕ)
    → validate_stages roles w ≡ none
    → s.workflow ≡ some w
    → last? (stage_runs s) ≡ some run
    → stage_at w.stages run.role ≡ some (stage, index)
    → stage.confirm ≡ true
    → next_stage s ≢ "done"
unfolding undoes
confirm-next roles w s run stage index h ew er e c done = elim (Option-cases (last? w.stages)) [
  | inl empty ↦
      absurd (none-ne-some (sym (stage_at-nil run.role) ∙ (rw (last?-nil w.stages empty) at e)))
  | inr (last, l) ↦
      let behind = last_behind roles w run.role stage last index h e c l in
      let stand =
        All-In (λ (st : Stage). stands w.stages st.name (stage_runs s) ≡ true) w.stages
          (rw stages at (next-done roles s (rw stages (validate_stages-IsStage roles w h)) done))
          (last?-In w.stages l) in
      true≢false
        (sym stand ∙ stands-last w.stages last.name (stage_runs s) run er (undone last behind))
]
  where
    stages : stages_of s ≡ w.stages
    stages = rw ew

    true≢false : true ≡ false → ⊥
    true≢false e = cc

    undone :
        (last : Stage) → In last (drop (suc index) w.stages) → undoes w.stages run last.name ≡ true
    undone last behind = rw (e, undoes) (any_named (drop (suc index) w.stages) last behind)

last_run-eq : (s : State) (run : StageRun) → last? (stage_runs s) ≡ some run → last_run s ≡ run
last_run-eq s run e = ap (λ o. elim o [ none ↦ no_run | some r ↦ r ]) e

clean_actions :
    (s : State) (run : StageRun) (stage : Stage) (index : ℕ)
    → last? (stage_runs s) ≡ some run
    → run.satisfied ≡ true
    → stage_at (stages_of s) run.role ≡ some (stage, index)
    → stage_actions s ≡ after_clean s stage index (next_stage s)
unfolding stage_actions
clean_actions s run stage index er sat e =
    ap (λ r. actions_after s r (next_stage s)) (last_run-eq s run er) ∙ rw (e, sat, actions_after)

unanswered_actions :
    (s : State) (stage : Stage) (index : ℕ) (next : String)
    → 0 < index
    → stage.confirm ≡ true
    → stage.always_ask ≡ true
    → question_of s ≢ ""
    → next ≢ "done"
    → change_answered s index ≡ false
    → after_clean s stage index next ≡ first_name (stages_of s) ∷ question_of s ∷ []
unfolding after_clean
unanswered_actions s stage index next later c ask q n missing =
    let q' = not_equal _ _ q in
    let n' = not_equal _ _ n in
    let later' = lt→ltb 0 index later in rw (later', c, ask, q', n', missing)
  where
    not_equal : (a b : String) → a ≢ b → (a == b) ≡ false
    not_equal a b h = elim (Bool-cases (a == b)) [ inl e ↦ absurd (h (==→≡ a b e)) | inr e ↦ e ]

-- After a clean launch of a stage that asks about every change, in an ordered run that
-- validateStages accepts, whatever stageActions offers other than the first stage and the question
-- role is offered on a reply of the requester to a question behind which no other stage has a
-- record.
pub stage_actions-asked :
    (roles : Roles) (w : Workflow) (s : State) (run : StageRun) (stage : Stage) (index : ℕ)
    (action : String)
    → validate_stages roles w ≡ none
    → s.workflow ≡ some w
    → last? (stage_runs s) ≡ some run
    → run.satisfied ≡ true
    → stage_at w.stages run.role ≡ some (stage, index)
    → stage.confirm ≡ true
    → stage.always_ask ≡ true
    → In action (stage_actions s)
    → action ≢ first_name w.stages
    → action ≢ w.question
    → answered_since w.stages w.question index s.history ≡ true
stage_actions-asked roles w s run stage index action h ew er sat e c ask offered not_first
      not_question =
    elim (Bool-cases (change_answered s index)) [
      | inl done ↦ sym same ∙ done
      | inr missing ↦ absurd (neither (rw (only missing) at offered))
    ]
  where
    stages : stages_of s ≡ w.stages
    stages = rw ew

    asking : question_of s ≡ w.question
    asking = rw ew

    same : change_answered s index ≡ answered_since w.stages w.question index s.history
    same =
        subst₂ (λ st q. change_answered s index ≡ answered_since st q index s.history) stages asking
          (change_answered-since s index)

    neither : In action (first_name w.stages ∷ w.question ∷ []) → ⊥
    neither (inl x) = not_first x
    neither (inr (inl x)) = not_question x
    neither (inr (inr x)) = x

    only : change_answered s index ≡ false → stage_actions s ≡ first_name w.stages ∷ w.question ∷ []
    only missing =
        let fact = confirm_fact roles w run.role stage index h e c in
        let e' : stage_at (stages_of s) run.role ≡ some (stage, index) = rw stages e in
        let q : question_of s ≢ "" = λ x. fact.asks (sym asking ∙ x) in
        clean_actions s run stage index er sat e'
        ∙ unanswered_actions s stage index (next_stage s) fact.later c ask q
            (confirm-next roles w s run stage index h ew er e c) missing
        ∙ ap₂ (λ x y. x ∷ y ∷ []) (ap first_name stages) asking
