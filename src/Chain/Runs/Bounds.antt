-- ===== src/Chain/Runs/Bounds.antt =====
-- stages.go, stageRuns: the bounds of a launch and the rounds of the outer loop.
use lass_das.Base.{
  ℕ, zero, suc, ◌+◌, ◌≤◌, ◌≡◌, refl, String, ◌==◌, ==→≡, ==_refl, Bool, true, ◌&&◌, not, ap, List,
  [], ◌∷◌, ◌++◌, arith, length, All, inl, inr, Bool-cases,
}
use lass_das.Chain.Types.{Result}
use lass_das.Chain.Refusals.{approval_failure_reason}
use lass_das.Chain.Runs.{LaunchEnd, note_end, launch_end, stage_runs_from}

note_end-length :
    (role : String) (b : Bool) (j : ℕ) (h : List Result)
    → ((note_end role b j h).to + length (note_end role b j h).rest ≡ j + length h)
      × (length (note_end role b j h).rest ≤ length h)
unfolding note_end
note_end-length role b j [] = (omega arith, omega arith)
note_end-length role b j (r ∷ h) = ground arith

pub launch_end-length :
    (role : String) (b : Bool) (j : ℕ) (h : List Result)
    → ((launch_end role b j h).to + length (launch_end role b j h).rest ≡ j + length h)
      × (length (launch_end role b j h).rest ≤ length h)
unfolding launch_end
launch_end-length role b j [] = (omega arith, omega arith)
launch_end-length role b j (r ∷ h) = ground (
  arith,
  launch_end-length role (b && (r.error == "")) (suc j) h,
  note_end-length role (b && (r.error == "")) (suc j) h,
)

-- The record that opens a launch belongs to it.
pub launch_end-progress :
    (r : Result) (b : Bool) (j : ℕ) (h : List Result)
    → length (launch_end r.role b j (r ∷ h)).rest ≤ length h
unfolding launch_end
launch_end-progress r b j h = ground (
  arith,
  ==_refl r.role,
  launch_end-length r.role (b && (r.error == "")) (suc j) h,
  note_end-length r.role (b && (r.error == "")) (suc j) h,
)

-- Any fuel that reaches the length gives the same launches.
pub stage_runs_from-fuel :
    (f g i : ℕ) (h : List Result)
    → length h ≤ f
    → length h ≤ g
    → stage_runs_from f i h ≡ stage_runs_from g i h
unfolding stage_runs_from
stage_runs_from-fuel zero zero i [] p q = refl
stage_runs_from-fuel zero (suc g) i [] p q = refl
stage_runs_from-fuel (suc f) zero i [] p q = refl
stage_runs_from-fuel (suc f) (suc g) i [] p q = refl
stage_runs_from-fuel zero g i (r ∷ h) p q = absurd (omega arith)
stage_runs_from-fuel (suc f) zero i (r ∷ h) p q = absurd (omega arith)
stage_runs_from-fuel (suc f) (suc g) i (r ∷ h) p q =
    let e = launch_end r.role true i (r ∷ h) in
    let enough = launch_end-progress r true i h in
    ground
      (arith, stage_runs_from-fuel f g e.to e.rest (omega (arith, enough)) (omega (arith, enough)))

-- A launch takes a stretch off the front of the records.
abbrev pub Split : String → Bool → ℕ → List Result → LaunchEnd → Type 0
Split role b j h e =
    (seg : List Result) × (h ≡ seg ++ e.rest)
    × (e.to ≡ j + length seg)
    × All (λ (r : Result). r.role ≡ role) seg
    × (e.satisfied ≡ true → (b ≡ true) × All (λ (r : Result). r.error ≡ "") seg)

note_end-Split :
    (role : String) (b : Bool) (j : ℕ) (h : List Result) → Split role b j h (note_end role b j h)
unfolding note_end
note_end-Split role b j [] = ([], refl, omega arith, tt, λ p. (p, tt))
note_end-Split role b j (r ∷ h) =
    elim (Bool-cases (r.role == role && not (approval_failure_reason r == ""))) [
      | inl e ↦ rw e (r ∷ [], refl, omega arith, (==→≡ _ _ (ground (arith, e)), tt), λ p. cc)
      | inr e ↦ rw e ([], refl, omega arith, tt, λ p. (p, tt))
    ]

pub launch_end-Split :
    (role : String) (b : Bool) (j : ℕ) (h : List Result) → Split role b j h (launch_end role b j h)
unfolding launch_end
launch_end-Split role b j [] = ([], refl, omega arith, tt, λ p. (p, tt))
launch_end-Split role b j (r ∷ h) =
    let b' = b && (r.error == "") in
    let (m, mh, mt, mr, ms) = launch_end-Split role b' (suc j) h in
    let (n, nh, nt, nr, ns) = note_end-Split role b' (suc j) h in
    elim (Bool-cases (r.role == role)) [
      | inr e ↦ rw e ([], refl, omega arith, tt, λ p. (p, tt))
      | inl e ↦ elim (Bool-cases (r.speaker == "runtime")) [
        | inl k ↦
            rw (e, k)
              (
                r ∷ n,
                ap (λ t. r ∷ t) nh,
                omega (arith, nt),
                (==→≡ _ _ e, nr),
                λ p. let q = ns p in (ground (arith, q.0), (==→≡ _ _ (ground (arith, q.0)), q.1)),
              )
        | inr k ↦
            rw (e, k)
              (
                r ∷ m,
                ap (λ t. r ∷ t) mh,
                omega (arith, mt),
                (==→≡ _ _ e, mr),
                λ p. let q = ms p in (ground (arith, q.0), (==→≡ _ _ (ground (arith, q.0)), q.1)),
              )
      ]
    ]
