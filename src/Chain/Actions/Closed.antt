-- ===== src/Chain/Actions/Closed.antt =====
-- stages.go, stageActions and validateStages: the actions of a checked run.
use lass_das.Base.{
  ℕ, suc, ◌≡◌, refl, String, ◌==◌, ==→≡, ≡→==, Bool, true, false, ◌&&◌, Option, none, some, List,
  [], ◌∷◌, arith, inl, inr, Bool-cases, Option-cases, All, ◌≢◌, has_key, is_empty, ltb, subst,
  some_inj, none-ne-some, last?,
}
use lass_das.Chain.Types.{Stage, Workflow, State, command_stage, environment_pause}
use lass_das.Chain.Runs.{
  stage_from, stage_at, stage_runs, stages_of, question_of, first_name, asking_stage,
  before_question,
}
use lass_das.Chain.Workflow.Ordered.{Roles, validate_stages}
use lass_das.Chain.Actions.{
  stage_actions, actions_after, after_clean, after_question, after_failure, next_stage, first_open,
  last_run,
}
use lass_das.Chain.Actions.Progress.{next_stage-stands}
use lass_das.Chain.Actions.Validated.{IsStage, validate_stages-IsStage, validate_stages-question}

stage_from-All {ℓ} :
    (P : Stage → Type ℓ) (i : ℕ) (stages : List Stage) (name : String) {found : Stage × ℕ}
    → All P stages
    → stage_from i stages name ≡ some found
    → P found.0
unfolding stage_from
stage_from-All P i [] name all e = absurd (not_found e)
  where
    not_found : {found : Stage × ℕ} → ◌≡◌ {A = Option (Stage × ℕ)} none (some found) → ⊥
    not_found e = cc
stage_from-All P i (stage ∷ stages) name all e = elim (Bool-cases (stage.name == name)) [
  | inl here ↦ subst (λ (f : Stage × ℕ). P f.0) (some_inj (rw here at e)) all.0
  | inr more ↦ stage_from-All P (suc i) stages name all.1 (rw more at e)
]

pub stage_at-All {ℓ} :
    (P : Stage → Type ℓ) (stages : List Stage) (name : String) {found : Stage × ℕ}
    → All P stages
    → stage_at stages name ≡ some found
    → P found.0
unfolding stage_at
stage_at-All P stages name all e = stage_from-All P 0 stages name all e

-- A stage that asked is a stage of the run.
pub asking_stage-All {ℓ} :
    (s : State) (P : Stage → Type ℓ) {found : Stage × ℕ}
    → All P (stages_of s)
    → asking_stage s ≡ some found
    → P found.0
unfolding asking_stage
asking_stage-All s P all e = elim (Bool-cases (question_of s == "")) [
  | inl q ↦ absurd (none-ne-some (rw q at e))
  | inr q ↦ elim (Option-cases (last? (stage_runs s))) [
    | inl l ↦ absurd (none-ne-some (rw (q, l) at e))
    | inr (run, l) ↦ elim (Bool-cases (run.role == question_of s)) [
      | inr k ↦ absurd (none-ne-some (rw (q, l, k) at e))
      | inl k ↦ elim (Option-cases (before_question (question_of s) (stage_runs s))) [
        | inl b ↦ absurd (none-ne-some (rw (q, l, k, b) at e))
        | inr (asker, b) ↦ stage_at-All P (stages_of s) asker.role all (rw (q, l, k, b) at e)
      ]
    ]
  ]
]

module _ (P : String → Type 0) (s : State) where
  after_clean-All :
      (stage : Stage) (index : ℕ) (next : String)
      → P stage.name
      → P (first_name (stages_of s))
      → (question_of s ≢ "" → P (question_of s))
      → P environment_pause
      → P next
      → All P (after_clean s stage index next)
  unfolding after_clean
  after_clean-All stage index next a b c d e = elim (Bool-cases (question_of s == "")) [
    | inl q ↦ ground arith
    | inr q ↦ let c' = c (λ h. ground (arith, ≡→== (question_of s) "" h)) in ground arith
  ]

  -- What holds of every name that the cases mention holds of every action.
  pub stage_actions-All :
      All
        (λ (stage : Stage). P stage.name × (stage.kind ≡ command_stage → P stage.on_failure))
        (stages_of s)
      → P (first_name (stages_of s))
      → (question_of s ≢ "" → P (question_of s))
      → P environment_pause
      → P (next_stage s)
      → All P (stage_actions s)
  unfolding stage_actions
  stage_actions-All stages b c d e =
      elim (Option-cases (stage_at (stages_of s) (last_run s).role)) [
        | inl out ↦
            rw (out, actions_after)
              (elim (Bool-cases ((last_run s).role == "")) [
                | inl none_ran ↦ rw none_ran (e, tt)
                | inr asked ↦ rw asked (after_question-All)
              ])
        | inr (found, at) ↦
            rw (at, actions_after)
              (elim (Bool-cases (last_run s).satisfied) [
                | inl clean ↦ rw clean (
                    after_clean-All found.0 found.1 (next_stage s) (here (last_run s).role at).0 b c
                      d e)
                | inr failed ↦ rw failed (after_failure-All found.0 (here (last_run s).role at))
              ])
      ]
    where
      here :
          (name : String) {found : Stage × ℕ}
          → stage_at (stages_of s) name ≡ some found
          → P found.0.name × (found.0.kind ≡ command_stage → P found.0.on_failure)
      here name at =
          stage_at-All
            (λ (stage : Stage). P stage.name × (stage.kind ≡ command_stage → P stage.on_failure))
            (stages_of s) name stages at

      after_failure-All :
          (stage : Stage)
          → P stage.name × (stage.kind ≡ command_stage → P stage.on_failure)
          → All P (after_failure stage)
      after_failure-All stage h = elim (Bool-cases (stage.kind == command_stage)) [
        | inl k ↦ rw k (h.1 (==→≡ _ _ k), tt)
        | inr k ↦ rw k (h.0, tt)
      ]

      after_question-All : All P (after_question s)
      after_question-All = elim (Option-cases (asking_stage s)) [
        | inl n ↦ rw (n, after_question) (b, tt)
        | inr (asker, n) ↦
            rw (n, after_question)
              (elim (Bool-cases (ltb 0 asker.1 && asker.0.confirm)) [
                | inl k ↦ rw k (
                  (asking_stage-All s
                      (λ (stage : Stage).
                        P stage.name × (stage.kind ≡ command_stage → P stage.on_failure))
                      stages n).0,
                  tt,
                )
                | inr k ↦ rw k (b, tt)
              ])
      ]

-- An action that the loop of the request knows: done, the pause, or a configured role.
pub data CanRun (roles : Roles) : String → Type 0 where
  done : {action : String} → action ≡ "done" → CanRun roles action
  pause : {action : String} → action ≡ environment_pause → CanRun roles action
  role : {action : String} → has_key action roles ≡ true → CanRun roles action

pub first_name-All {ℓ} :
    (P : Stage → Type ℓ) (stages : List Stage)
    → is_empty stages ≡ false
    → All P stages
    → (stage : Stage) × (first_name stages ≡ stage.name) × P stage
first_name-All P [] ran all = cc
first_name-All P (stage ∷ stages) ran all = (stage, refl, all.0)

first_open-CanRun :
    (roles : Roles) (seen : String → Bool) (stages : List Stage)
    → All (IsStage roles) stages
    → CanRun roles (first_open seen stages)
unfolding first_open
first_open-CanRun roles seen [] all = CanRun.done refl
first_open-CanRun roles seen (stage ∷ stages) all = elim (Bool-cases (seen stage.name)) [
  | inl e ↦ rw e (first_open-CanRun roles seen stages all.1)
  | inr e ↦ rw e (CanRun.role all.0.named.configured)
]

pub All-map {ℓ κ} :
    {A : Type 0} {P : A → Type ℓ} {Q : A → Type κ} (xs : List A)
    → ((a : A) → P a → Q a)
    → All P xs
    → All Q xs
All-map [] f h = tt
All-map (x ∷ xs) f h = (f x h.0, All-map xs f h.1)

-- Over an ordered run that validateStages accepts, every action of stageActions is done, the pause
-- for the environment or a configured role, whatever the history is.
pub stage_actions-CanRun :
    (roles : Roles) (w : Workflow) (s : State)
    → validate_stages roles w ≡ none
    → is_empty w.stages ≡ false
    → s.workflow ≡ some w
    → All (CanRun roles) (stage_actions s)
stage_actions-CanRun roles w s valid ran e =
    let stages : stages_of s ≡ w.stages = rw e in
    let all : All (IsStage roles) (stages_of s) =
      rw stages (validate_stages-IsStage roles w valid) in
    let (first, name, is_stage) =
      first_name-All (IsStage roles) (stages_of s) (rw stages ran) all in
    stage_actions-All (CanRun roles) s
      (All-map (stages_of s)
        (λ stage h. (CanRun.role h.named.configured, λ k. CanRun.role (h.failure k).configured))
        all)
      (rw name (CanRun.role is_stage.named.configured))
      (λ q. CanRun.role (rw e (validate_stages-question roles w valid (λ p. q (rw e p)))))
      (CanRun.pause refl) (rw (next_stage-stands s) (first_open-CanRun roles _ (stages_of s) all))
