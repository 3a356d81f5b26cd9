-- ===== src/Chain/Actions/Validated.antt =====
-- stages.go, validateStages: what the checks give, once they find nothing.
use lass_das.Base.{
  ◌≡◌, refl, String, ◌==◌, ==→≡, ≡→==, Bool, true, false, none, some, List, [], ◌∷◌, arith, inl,
  inr, Bool-cases, All, ◌≢◌, has_key, lookup_or,
}
use lass_das.Chain.Types.{Stage, Workflow, model_stage, command_stage}
use lass_das.Chain.Workflow.Checks.{Invalid, Check, ◌>>◌, refuse_if}
use lass_das.Chain.Workflow.Ordered.{
  Roles, Kinds, kinds_of, check_names, check_failures, check_question_role, validate_stages,
}

pub >>-eq-none : (a b : Check) → (a >> b) ≡ none → (a ≡ none) × (b ≡ none)
>>-eq-none none b h = (refl, h)
>>-eq-none (some e) b h = cc

pub refuse_if-eq-none : (b : Bool) (e : Invalid) → refuse_if b e ≡ none → b ≡ false
refuse_if-eq-none true e h = cc
refuse_if-eq-none false e h = refl

-- A name of a configured role that the run can launch.
pub record IsRole (roles : Roles) (name : String) : Type 0 where
  pub configured : has_key name roles ≡ true
  pub not_done : name ≢ "done"
  pub not_router : name ≢ "router"

pub data IsKind : String → Type 0 where
  model : {kind : String} → kind ≡ model_stage → IsKind kind
  command : {kind : String} → kind ≡ command_stage → IsKind kind

check_names-IsRole :
    (roles : Roles) (kinds : Kinds) (stages : List Stage)
    → check_names roles kinds stages ≡ none
    → All (λ (stage : Stage). IsRole roles stage.name) stages
unfolding check_names
check_names-IsRole roles kinds [] h = tt
check_names-IsRole roles kinds (stage ∷ stages) h = (
  record {
    configured = ground arith;
    not_done = λ e. ground (arith, ≡→== stage.name "done" e);
    not_router = λ e. ground (arith, ≡→== stage.name "router" e);
  },
  check_names-IsRole roles ((stage.name, stage.kind) ∷ kinds) stages (ground arith),
)

check_names-IsKind :
    (roles : Roles) (kinds : Kinds) (stages : List Stage)
    → check_names roles kinds stages ≡ none
    → All (λ (stage : Stage). IsKind stage.kind) stages
unfolding check_names
check_names-IsKind roles kinds [] h = tt
check_names-IsKind roles kinds (stage ∷ stages) h =
    (kinded, check_names-IsKind roles ((stage.name, stage.kind) ∷ kinds) stages (ground arith))
  where
    kinded : IsKind stage.kind
    kinded = elim (Bool-cases (stage.kind == model_stage)) [
      | inl e ↦ IsKind.model (==→≡ _ _ e)
      | inr e ↦ IsKind.command (==→≡ _ _ (ground arith))
    ]

-- A kind found by its name is that of a stage of the run.
lookup-kinds {ℓ} :
    (P : Stage → Type ℓ) (name : String) (stages : List Stage)
    → (lookup_or "" name (kinds_of stages) == model_stage) ≡ true
    → All P stages
    → (stage : Stage) × (stage.name ≡ name) × (stage.kind ≡ model_stage) × P stage
unfolding lookup_or kinds_of
lookup-kinds P name [] h all = absurd (not_model h)
  where
    not_model : ("" == model_stage) ≡ true → ⊥
    not_model q = cc (==→≡ _ _ q)
lookup-kinds P name (stage ∷ stages) h all = elim (Bool-cases (stage.name == name)) [
  | inl e ↦ (stage, ==→≡ _ _ e, ==→≡ _ _ (rw e at h), all.0)
  | inr e ↦ lookup-kinds P name stages (rw e at h) all.1
]

-- A stage of a checked run: its role, and the model stage that takes a failed command's output.
pub record IsStage (roles : Roles) (stage : Stage) : Type 0 where
  pub named : IsRole roles stage.name
  pub kinded : IsKind stage.kind
  pub failure : stage.kind ≡ command_stage → IsRole roles stage.on_failure

failures-IsStage :
    (roles : Roles) (all stages : List Stage)
    → All (λ (stage : Stage). IsRole roles stage.name) all
    → All (λ (stage : Stage). IsRole roles stage.name) stages
    → All (λ (stage : Stage). IsKind stage.kind) stages
    → check_failures (kinds_of all) stages ≡ none
    → All (IsStage roles) stages
unfolding check_failures
failures-IsStage roles all [] named ns ks h = tt
failures-IsStage roles all (stage ∷ stages) named ns ks h = (
  record { named = ns.0; kinded = ks.0; failure = λ e. ground (arith, found e) },
  failures-IsStage roles all stages named ns.1 ks.1 (ground arith),
)
  where
    found : stage.kind ≡ command_stage → IsRole roles stage.on_failure
    found e =
        let (target, same, _, role) =
          lookup-kinds (λ (s : Stage). IsRole roles s.name) stage.on_failure all
            (ground (arith, ≡→== stage.kind command_stage e)) named in
        rw same at role

pub validate_stages-IsStage :
    (roles : Roles) (w : Workflow) → validate_stages roles w ≡ none → All (IsStage roles) w.stages
unfolding validate_stages
validate_stages-IsStage roles w h =
    let names : check_names roles [] w.stages ≡ none = ground arith in
    let failures : check_failures (kinds_of w.stages) w.stages ≡ none = ground arith in
    let named = check_names-IsRole roles [] w.stages names in
    failures-IsStage roles w.stages w.stages named named
      (check_names-IsKind roles [] w.stages names) failures

-- The question role is configured and is no stage.
pub validate_stages-question :
    (roles : Roles) (w : Workflow)
    → validate_stages roles w ≡ none
    → w.question ≢ ""
    → has_key w.question roles ≡ true
unfolding validate_stages check_question_role
validate_stages-question roles w h q = ground (arith, ==→≡ w.question "")
