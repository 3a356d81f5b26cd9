-- ===== src/Chain/Actions/Done.antt =====
-- stages.go, stageActions: the action done and the launches of every stage.
use lass_das.Base.{
  ℕ, suc, ◌+◌, ◌≡◌, refl, sym, ◌∙◌, String, ◌==◌, true, false, none, some, List, [], ◌∷◌, arith,
  inl, inr, Bool-cases, All, In, ◌≢◌, ◌⊎◌, is_empty, last?, drop, some_inj, none-ne-some,
}
use lass_das.Chain.Types.{Stage, Workflow, State}
use lass_das.Chain.Runs.{StageRun, stage_from, stage_runs, stages_of}
use lass_das.Chain.Workflow.Ordered.{Roles, validate_stages}
use lass_das.Chain.Actions.{stage_actions, next_stage}
use lass_das.Chain.Actions.Progress.{
  undoes, undisturbed, stands, next_stage-stands, first_open-done,
}
use lass_das.Chain.Actions.Validated.{IsStage, validate_stages-IsStage}
use lass_das.Chain.Actions.Closed.{stage_actions-All, first_name-All, All-map}

pub All-In {ℓ} : {A : Type 0} (P : A → Type ℓ) {a : A} (xs : List A) → All P xs → In a xs → P a
All-In P [] all h = absurd h
All-In P (x ∷ xs) all (inl e) = rw e all.0
All-In P (x ∷ xs) all (inr h) = All-In P xs all.1 h

-- Every stage of the run stands: its last launch ended cleanly and no launch after it was of it
-- or of a stage before it.
abbrev pub AllStand : List Stage → List StageRun → Type 0
AllStand stages runs = All (λ (stage : Stage). stands stages stage.name runs ≡ true) stages

pub next-done :
    (roles : Roles) (s : State)
    → All (IsStage roles) (stages_of s)
    → next_stage s ≡ "done"
    → AllStand (stages_of s) (stage_runs s)
next-done roles s all h =
    first_open-done (λ name. stands (stages_of s) name (stage_runs s)) (stages_of s)
      (All-map (stages_of s) (λ stage i. i.named.not_done) all) (sym (next_stage-stands s) ∙ h)

-- Over an ordered run that validateStages accepts and whose question role is not named done, done
-- is an action only when some launch of every stage ended cleanly and no launch after it was of
-- that stage or of one before it.
pub stage_actions-done :
    (roles : Roles) (w : Workflow) (s : State)
    → validate_stages roles w ≡ none
    → is_empty w.stages ≡ false
    → s.workflow ≡ some w
    → w.question ≢ "done"
    → In "done" (stage_actions s)
    → AllStand w.stages (stage_runs s)
stage_actions-done roles w s valid ran e q h =
    let stages : stages_of s ≡ w.stages = rw e in
    let all : All (IsStage roles) (stages_of s) =
      rw stages (validate_stages-IsStage roles w valid) in
    let (first, name, is_stage) =
      first_name-All (IsStage roles) (stages_of s) (rw stages ran) all in
    let stand =
      All-In P (stage_actions s)
        (stage_actions-All P s
          (All-map (stages_of s)
            (λ stage i.
              (λ d. absurd (i.named.not_done d), λ k d. absurd ((i.failure k).not_done d)))
            all)
          (λ d. absurd (is_stage.named.not_done (sym name ∙ d))) (λ _ d. absurd (q (rw e at d)))
          (λ d. cc) (next-done roles s all))
        h refl in
    rw stages at stand
  where
    P : String → Type 0
    P action = action ≡ "done" → AllStand (stages_of s) (stage_runs s)

undisturbed-last :
    (stages : List Stage) (name : String) (runs : List StageRun) (run : StageRun)
    → last? runs ≡ some run
    → undoes stages run name ≡ true
    → undisturbed stages name runs ≡ false
unfolding undisturbed
undisturbed-last stages name [] run e u = absurd (none-ne-some e)
undisturbed-last stages name (r ∷ []) run e u = rw (some_inj e, u) (ground arith)
undisturbed-last stages name (r ∷ r' ∷ runs) run e u =
    ground (arith, undisturbed-last stages name (r' ∷ runs) run e u)

-- Where the latest launch is of a stage before the named one, the named one does not stand.
pub stands-last :
    (stages : List Stage) (name : String) (runs : List StageRun) (run : StageRun)
    → last? runs ≡ some run
    → undoes stages run name ≡ true
    → stands stages name runs ≡ false
unfolding stands
stands-last stages name [] run e u = refl
stands-last stages name (r ∷ []) run e u = rw (some_inj e, u) (ground arith)
stands-last stages name (r ∷ r' ∷ runs) run e u = ground (
  arith,
  undisturbed-last stages name (r' ∷ runs) run e u,
  stands-last stages name (r' ∷ runs) run e u,
)

pub last?-In : {A : Type 0} (xs : List A) {x : A} → last? xs ≡ some x → In x xs
last?-In [] e = absurd (none-ne-some e)
last?-In (x ∷ []) e = inl (sym (some_inj e))
last?-In (x ∷ y ∷ xs) e = inr (last?-In (y ∷ xs) e)

last?-head :
    {A : Type 0} (x : A) (xs : List A) {l : A} → last? (x ∷ xs) ≡ some l → (l ≡ x) ⊎ In l xs
last?-head x [] e = inl (sym (some_inj e))
last?-head x (y ∷ xs) e = inr (last?-In (y ∷ xs) e)

-- What `stage_from` found at the head.
at_head :
    (i : ℕ) (stage last : Stage) (stages : List Stage) {found : Stage × ℕ}
    → (stage, i) ≡ found
    → last? (stage ∷ stages) ≡ some last
    → (k : ℕ) × (found.1 ≡ i + k) × ((last ≡ found.0) ⊎ In last (drop k stages))
at_head i stage last stages same l = rw (← same) (0, omega arith, last?-head stage stages l)

-- The last stage of the run is the stage found, or stands behind it.
pub stage_from-last :
    (i : ℕ) (stages : List Stage) (name : String) (found : Stage × ℕ) (last : Stage)
    → stage_from i stages name ≡ some found
    → last? stages ≡ some last
    → (k : ℕ) × (found.1 ≡ i + k) × ((last ≡ found.0) ⊎ In last (drop (suc k) stages))
unfolding stage_from
stage_from-last i [] name found last e l = absurd (none-ne-some e)
stage_from-last i (stage ∷ []) name found last e l = elim (Bool-cases (stage.name == name)) [
  | inl here ↦ at_head i stage last [] (some_inj (rw here at e)) l
  | inr more ↦ absurd (none-ne-some (rw more at e))
]
stage_from-last i (stage ∷ y ∷ stages) name found last e l =
    elim (Bool-cases (stage.name == name)) [
      | inl here ↦ at_head i stage last (y ∷ stages) (some_inj (rw here at e)) l
      | inr more ↦
          let (k, at, h) = stage_from-last (suc i) (y ∷ stages) name found last (rw more at e) l in
          (suc k, omega (arith, at), h)
    ]
