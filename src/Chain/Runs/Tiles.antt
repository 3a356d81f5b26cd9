-- ===== src/Chain/Runs/Tiles.antt =====
-- stages.go, stageRuns: the history cut into launches.
use lass_das.Base.{
  ℕ, zero, suc, ◌+◌, ◌≤◌, ◌<◌, ◌≡◌, refl, String, true, false, List, [], ◌∷◌, ◌++◌, arith, length,
  All, inl, inr, Bool-cases,
}
use lass_das.Chain.Types.{Result, State}
use lass_das.Chain.Runs.{StageRun, launch_end, is_launched, stage_runs_from, runs_of, stage_runs}
use lass_das.Chain.Runs.Bounds.{launch_end-Split, launch_end-length, launch_end-progress}

-- `Tiles i history runs`: from place `i` on, the history is cut into non-empty stretches of one
-- role each. A stretch of a launched role is one run, in order, with its bounds; a run that counts
-- as satisfied holds no error. What no run covers is the runtime's own routing record, or names no role.
pub data Tiles : ℕ → List Result → List StageRun → Type 0 where
  end :
      {i : ℕ} {history : List Result} {runs : List StageRun}
      → history ≡ []
      → runs ≡ []
      → Tiles i history runs
  launch :
      {i : ℕ} {history : List Result} {runs : List StageRun}
      → (run : StageRun) (seg rest : List Result) (later : List StageRun) → history ≡ seg ++ rest
      → runs ≡ run ∷ later
      → 0 < length seg
      → run.from ≡ i
      → run.to ≡ i + length seg
      → is_launched run.role ≡ true
      → All (λ (r : Result). r.role ≡ run.role) seg
      → (run.satisfied ≡ true → All (λ (r : Result). r.error ≡ "") seg)
      → Tiles run.to rest later
      → Tiles i history runs
  pass :
      {i : ℕ} {history : List Result} {runs : List StageRun}
      → (role : String) (seg rest : List Result) → history ≡ seg ++ rest
      → 0 < length seg
      → is_launched role ≡ false
      → All (λ (r : Result). r.role ≡ role) seg
      → Tiles (i + length seg) rest runs
      → Tiles i history runs

pub stage_runs_from-Tiles :
    (f i : ℕ) (h : List Result) → length h ≤ f → Tiles i h (stage_runs_from f i h)
unfolding stage_runs_from
stage_runs_from-Tiles zero i [] p = Tiles.end refl refl
stage_runs_from-Tiles (suc f) i [] p = Tiles.end refl refl
stage_runs_from-Tiles zero i (r ∷ h) p = absurd (omega arith)
stage_runs_from-Tiles (suc f) i (r ∷ h) p =
    let e = launch_end r.role true i (r ∷ h) in
    let (seg, he, ht, hr, hs) = launch_end-Split r.role true i (r ∷ h) in
    let enough = launch_end-progress r true i h in
    let rest = stage_runs_from-Tiles f e.to e.rest (omega (arith, enough)) in
    let some_record : 0 < length seg =
      omega (arith, enough, launch_end-length r.role true i (r ∷ h), ht) in
    elim (Bool-cases (is_launched r.role)) [
      | inl l ↦
          rw l (Tiles.launch _ seg e.rest _ he refl some_record refl ht l hr (λ s. (hs s).1) rest)
      | inr l ↦ rw l (Tiles.pass r.role seg e.rest he some_record l hr (subst_place ht rest))
    ]
  where
    subst_place :
        {a b : ℕ} {h : List Result} {runs : List StageRun} → a ≡ b → Tiles a h runs → Tiles b h runs
    subst_place p t = rw p at t

-- stageRuns cuts the history into non-empty stretches of one role each, every record in exactly
-- one. The runs are, in order and with their bounds, the stretches of a launched role, and a run
-- that counts as satisfied holds no error.
pub stage_runs-Tiles : (s : State) → Tiles 0 s.history (stage_runs s)
unfolding stage_runs runs_of
stage_runs-Tiles s = stage_runs_from-Tiles (length s.history) 0 s.history (omega arith)
