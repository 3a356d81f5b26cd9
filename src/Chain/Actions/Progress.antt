-- ===== src/Chain/Actions/Progress.antt =====
-- stages.go, stageActions: what the map `satisfied` holds after the launches.
use lass_das.Base.{
  suc, ◌≡◌, refl, ◌∙◌, String, ◌==◌, ==→≡, ≡→==, Bool, true, false, not, ◌&&◌, ◌||◌, none, some,
  List, [], ◌∷◌, arith, if◌then◌else◌, any, drop, ◌≢◌, fun_ext, ap, inl, inr, Bool-cases,
  Option-cases, All,
}
use lass_das.Chain.Types.{Stage, State}
use lass_das.Chain.Runs.{StageRun, stage_at, stage_runs, stages_of}
use lass_das.Chain.Actions.{
  Observed, observe, clear_all, observe_run, observe_runs, first_open, next_stage,
}

abbrev pub is_named : String → Stage → Bool
is_named name stage = stage.name == name

-- A launch of a stage before the named one: it leaves the named stage with nothing observed.
unfoldable pub undoes : List Stage → StageRun → String → Bool
undoes stages run name = elim (stage_at stages run.role) [
  | none ↦ false
  | some (_, index) ↦ any (is_named name) (drop (suc index) stages)
]

-- No launch of the list is of the named stage or of one before it.
unfoldable pub undisturbed : List Stage → String → List StageRun → Bool
undisturbed stages name [] = true
undisturbed stages name (run ∷ runs) =
    not (run.role == name) && (not (undoes stages run name) && undisturbed stages name runs)

-- Some launch of the named stage ended cleanly, and what was launched later did not disturb it.
unfoldable pub stands : List Stage → String → List StageRun → Bool
stands stages name [] = false
stands stages name (run ∷ runs) =
    ((run.role == name)
      && (run.satisfied && (not (undoes stages run name) && undisturbed stages name runs)))
    || stands stages name runs

clear_all-any :
    (later : List Stage) (seen : Observed) (name : String)
    → clear_all later seen name ≡ (if any (is_named name) later then false else seen name)
unfolding clear_all
clear_all-any [] seen name = refl
clear_all-any (stage ∷ later) seen name =
    clear_all-any later (observe stage.name false seen) name
    ∙ ground (
      arith,
      ==→≡ name stage.name,
      ==→≡ stage.name name,
      ≡→== name stage.name,
      ≡→== stage.name name,
    )

pub observe_run-undoes :
    (stages : List Stage) (seen : Observed) (run : StageRun) (name : String)
    → observe_run stages seen run name ≡ (
        if undoes stages run name
        then false
        else if run.role == name
        then run.satisfied
        else seen name)
unfolding observe_run undoes
observe_run-undoes stages seen run name = elim (Option-cases (stage_at stages run.role)) [
  | inl e ↦
      rw (e, observe_run, undoes)
        (ground
          (arith, ==→≡ name run.role, ==→≡ run.role name, ≡→== name run.role, ≡→== run.role name))
  | inr (found, e) ↦
      rw (e, observe_run, undoes)
        (clear_all-any (drop (suc found.1) stages) (observe run.role run.satisfied seen) name
          ∙ ground (
            arith,
            ==→≡ name run.role,
            ==→≡ run.role name,
            ≡→== name run.role,
            ≡→== run.role name,
          ))
]

pub observe_runs-stands :
    (stages : List Stage) (seen : Observed) (runs : List StageRun) (name : String)
    → observe_runs stages seen runs name
      ≡ (stands stages name runs || (seen name && undisturbed stages name runs))
unfolding observe_runs stands undisturbed
observe_runs-stands stages seen [] name = ground arith
observe_runs-stands stages seen (run ∷ runs) name = ground (
  arith,
  observe_runs-stands stages (observe_run stages seen run) runs name,
  observe_run-undoes stages seen run name,
)

-- The stage that stageActions finds next from its map is the first one of which no launch ended
-- cleanly without a later launch of it or of a stage before it.
pub next_stage-stands :
    (s : State)
    → next_stage s ≡ first_open (λ name. stands (stages_of s) name (stage_runs s)) (stages_of s)
unfolding next_stage
next_stage-stands s = ap (λ seen. first_open seen (stages_of s)) (fun_ext same)
  where
    same :
        (name : String)
        → observe_runs (stages_of s) (λ _. false) (stage_runs s) name
          ≡ stands (stages_of s) name (stage_runs s)
    same name = observe_runs-stands (stages_of s) (λ _. false) (stage_runs s) name ∙ ground arith

pub first_open-done :
    (seen : Observed) (stages : List Stage)
    → All (λ (stage : Stage). stage.name ≢ "done") stages
    → first_open seen stages ≡ "done"
    → All (λ (stage : Stage). seen stage.name ≡ true) stages
unfolding first_open
first_open-done seen [] fine h = tt
first_open-done seen (stage ∷ stages) fine h = elim (Bool-cases (seen stage.name)) [
  | inl e ↦ (e, first_open-done seen stages fine.1 (rw e at h))
  | inr e ↦ absurd (fine.0 (rw e at h))
]
