-- ===== src/Chain/Runs/Notes.antt =====
-- stages.go, stageRuns: the runtime's notes of its own routing.
use lass_das.Base.{
  ℕ, zero, suc, ◌≤◌, ◌≡◌, refl, sym, ap, ◌∙◌, String, ◌==◌, ==→≡, ≡→==, ==_refl, Bool, true, false,
  not, ◌&&◌, List, [], ◌∷◌, ◌++◌, arith, length, length-append, ◌⊎◌, inl, inr, Bool-cases,
  if◌then◌else◌,
}
use lass_das.Chain.Types.{Result, State}
use lass_das.Chain.Refusals.{approval_failure_reason}
use lass_das.Chain.Runs.{
  StageRun, LaunchEnd, note_end, launch_end, is_launched, stage_runs_from, runs_of, stage_runs,
}
use lass_das.Chain.Runs.Bounds.{launch_end-progress, stage_runs_from-fuel}

-- The note left for the next round, or taken by a stretch of its own role that ends the history.
abbrev Passed : Result → String → LaunchEnd → LaunchEnd → Type 0
Passed n role e e' =
    (e' ≡ record { satisfied = e.satisfied; to = e.to; rest = e.rest ++ n ∷ [] })
    ⊎ ((n.role ≡ role) × (e.rest ≡ []) × (e'.rest ≡ []))

note_end-Passed :
    (n : Result) (role : String) (b : Bool) (j : ℕ) (h : List Result)
    → Passed n role (note_end role b j h) (note_end role b j (h ++ n ∷ []))
unfolding note_end
note_end-Passed n role b j [] =
    elim (Bool-cases (n.role == role && not (approval_failure_reason n == ""))) [
      | inl e ↦ rw e (inr (==→≡ _ _ (ground (arith, e)), refl, refl))
      | inr e ↦ rw e (inl refl)
    ]
note_end-Passed n role b j (r ∷ h) =
    elim (Bool-cases (r.role == role && not (approval_failure_reason r == ""))) [
      | inl e ↦ rw e (inl refl)
      | inr e ↦ rw e (inl refl)
    ]

only_note : (n : Result) (i : ℕ) → (launch_end n.role true i (n ∷ [])).rest ≡ []
unfolding launch_end note_end
only_note n i = ground (arith, ==_refl n.role)

launch_end-Passed :
    (n : Result) (role : String) (b : Bool) (j : ℕ) (h : List Result)
    → Passed n role (launch_end role b j h) (launch_end role b j (h ++ n ∷ []))
unfolding launch_end note_end
launch_end-Passed n role b j [] = elim (Bool-cases (n.role == role)) [
  | inl e ↦ inr (==→≡ _ _ e, refl, ground (arith, e))
  | inr e ↦ rw e (inl refl)
]
launch_end-Passed n role b j (r ∷ h) = elim (Bool-cases (r.role == role)) [
  | inr e ↦ rw e (inl refl)
  | inl e ↦ elim (Bool-cases (r.speaker == "runtime")) [
    | inl k ↦ rw (e, k) (note_end-Passed n role (b && (r.error == "")) (suc j) h)
    | inr k ↦ rw (e, k) (launch_end-Passed n role (b && (r.error == "")) (suc j) h)
  ]
]

stage_runs_from-nil : (f i : ℕ) → stage_runs_from f i [] ≡ []
unfolding stage_runs_from
stage_runs_from-nil zero i = refl
stage_runs_from-nil (suc f) i = refl

router_not_launched : (role : String) → role ≡ "router" → is_launched role ≡ false
unfolding is_launched
router_not_launched role q = ground (arith, ≡→== role "router" q)

-- One round of the outer loop, once the inner loop stopped at `e`.
abbrev outer_round : ℕ → ℕ → Result → LaunchEnd → List StageRun
outer_round f i r e =
    let more = stage_runs_from f e.to e.rest in
    if is_launched r.role
    then record { role = r.role; satisfied = e.satisfied; from = i; to = e.to } ∷ more
    else more

stage_runs_from-note :
    (f i : ℕ) (h : List Result) (n : Result)
    → n.role ≡ "router"
    → length h ≤ f
    → stage_runs_from (suc f) i (h ++ n ∷ []) ≡ stage_runs_from f i h
unfolding stage_runs_from
stage_runs_from-note f i [] n q p =
    rw (router_not_launched n.role q, stage_runs_from-nil f i)
      (ap (stage_runs_from f _) (only_note n i) ∙ stage_runs_from-nil f _)
stage_runs_from-note zero i (r ∷ h) n q p = absurd (omega arith)
stage_runs_from-note (suc f) i (r ∷ h) n q p =
    let e = launch_end r.role true i (r ∷ h) in
    let ih =
      stage_runs_from-note f e.to e.rest n q (omega (arith, launch_end-progress r true i h)) in
    elim (launch_end-Passed n r.role true i (r ∷ h)) [
      | inl same ↦ ap (outer_round (suc f) i r) same ∙ rw ih
      | inr (role, old, new) ↦
          rw (router_not_launched r.role (sym role ∙ q), old, new, stage_runs_from-nil f _)
    ]

-- A record that the runtime notes of its own routing at the end of the history changes no launch
-- that stageRuns reads.
pub stage_runs-router_note :
    (s : State) (n : Result)
    → n.role ≡ "router"
    → stage_runs (record s { history = s.history ++ n ∷ [] }) ≡ stage_runs s
unfolding stage_runs runs_of
stage_runs-router_note s n q =
    stage_runs_from-fuel _ (suc (length s.history)) 0 (s.history ++ n ∷ []) (omega arith)
      (omega (arith, length-append {0} s.history (n ∷ [])))
    ∙ stage_runs_from-note (length s.history) 0 s.history n q (omega arith)
