-- ===== src/Chain/Run/Held.antt =====
-- chain.go, Run: a state that is done, waits or is paused.
use lass_das.Base.{
  ℕ, zero, suc, ◌==◌, some, ◌≡◌, refl, ◌⊎◌, inl, inr, Bool-cases, Option-cases, is_some, true,
  false, arith,
}
use lass_das.Chain.Types.{State}
use lass_das.Chain.Actions.{environment_paused}
use lass_das.Chain.Refusals.{approval_paused}
use lass_das.Chain.Run.Monad.{
  Chain, Stop, World, Outcome, go_on, halt, M, bind_outcome, stop, maybe, ◌>>=◌, check_ended, wait,
  load_state,
}
use lass_das.Chain.Run.Launch.{carry_on, held, run}

-- What keeps a state from going on.
abbrev pub Rests : State → Type 0
Rests s =
    (s.done ≡ true)
    ⊎ ((approval_paused s == "") ≡ false)
    ⊎ (is_some s.awaiting_approval ≡ true)
    ⊎ (s.waiting ≡ true)
    ⊎ (environment_paused s ≡ true)

-- What a stop says of the state that was loaded.
abbrev pub Reports : Stop → State → Type 0
Reports Stop.finished s = s.done ≡ true
Reports Stop.approval_paused s = (approval_paused s == "") ≡ false
Reports Stop.awaiting_approval s = is_some s.awaiting_approval ≡ true
Reports Stop.waiting s = s.waiting ≡ true
Reports Stop.environment_paused s = environment_paused s ≡ true
Reports _ s = ⊥

-- How a run over such states ends: by a state that was loaded, for a reason that it has; or nothing was
-- loaded before the context ended or the attempts were used up.
abbrev pub EndsAtRest : Chain → Outcome (Unit {0}) → Type 0
EndsAtRest c (go_on _) = ⊥
EndsAtRest c (halt Stop.cancelled) = Unit
EndsAtRest c (halt Stop.out_of_fuel) = Unit
EndsAtRest c (halt reason) = (t : ℕ) × (s : State) × (c.load t ≡ some s) × Reports reason s

held-Reports : (s : State) → Rests s → (reason : Stop) × (held s ≡ some reason) × Reports reason s
unfolding held ◌==◌ approval_paused environment_paused
held-Reports s r = elim (Bool-cases s.done) [
  | inl d ↦ (Stop.finished, rw d refl, d)
  | inr d ↦ elim (Bool-cases (approval_paused s == "")) [
    | inr p ↦ (Stop.approval_paused, rw (d, p) refl, p)
    | inl p ↦ elim (Bool-cases (is_some s.awaiting_approval)) [
      | inl a ↦ (Stop.awaiting_approval, rw (d, p, a) refl, a)
      | inr a ↦ elim (Bool-cases s.waiting) [
        | inl w ↦ (Stop.waiting, rw (d, p, a, w) refl, w)
        | inr w ↦ elim (Bool-cases (environment_paused s)) [
          | inl e ↦ (Stop.environment_paused, rw (d, p, a, w, e) refl, e)
          | inr e ↦ absurd (none_left r d p a w e)
        ]
      ]
    ]
  ]
]
  where
    none_left :
        Rests s
        → s.done ≡ false
        → (approval_paused s == "") ≡ true
        → is_some s.awaiting_approval ≡ false
        → s.waiting ≡ false
        → environment_paused s ≡ false
        → ⊥
    none_left r d p a w e = ground (arith, r, d, p, a, w, e)

Reports-EndsAtRest :
    (c : Chain) (t : ℕ) (s : State) (reason : Stop)
    → c.load t ≡ some s
    → Reports reason s
    → EndsAtRest c (halt reason)
Reports-EndsAtRest c t s Stop.finished e r = (t, s, e, r)
Reports-EndsAtRest c t s Stop.approval_paused e r = (t, s, e, r)
Reports-EndsAtRest c t s Stop.awaiting_approval e r = (t, s, e, r)
Reports-EndsAtRest c t s Stop.waiting e r = (t, s, e, r)
Reports-EndsAtRest c t s Stop.environment_paused e r = (t, s, e, r)
Reports-EndsAtRest c t s Stop.attempt_limit_reached e r = absurd r
Reports-EndsAtRest c t s Stop.cancelled e r = tt
Reports-EndsAtRest c t s Stop.refused_workflow e r = absurd r
Reports-EndsAtRest c t s Stop.no_gate e r = absurd r
Reports-EndsAtRest c t s Stop.gate_failed e r = absurd r
Reports-EndsAtRest c t s Stop.out_of_fuel e r = tt

-- What the load of such a state leaves: nothing but the reason.
abbrev AtRest : Chain → World → Outcome (Unit {0}) × World → Type 0
AtRest c w (o, w') = (w'.trace ≡ w.trace) × EndsAtRest c o

then_held :
    (c : Chain) (fuel : ℕ) (k : State → M (Unit {0})) (w : World)
    → ((t : ℕ) (s : State) → c.load t ≡ some s → Rests s)
    → AtRest c w (bind_outcome (load_state c fuel w) (λ s. maybe (held s) (k s) stop))
unfolding load_state wait check_ended ◌>>=◌
then_held c zero k w all = (refl, tt)
then_held c (suc fuel) k w all = elim (Option-cases (c.load w.tick)) [
  | inr (s, e) ↦
      let (reason, h, r) = held-Reports s (all w.tick s e) in
      rw (e, h) (refl, Reports-EndsAtRest c w.tick s reason e r)
  | inl e ↦ elim (Bool-cases (c.ended (suc w.tick))) [
    | inl over ↦ rw (e, over) (refl, tt)
    | inr live ↦ rw (e, live) (then_held c fuel k _ all)
  ]
]

-- Where every state that can be loaded is done, is paused for an approval, waits for one or for an
-- answer, or is paused for its environment, a run launches nothing and saves nothing, however often
-- the load is repeated; and it reports that a loaded state is as it was found, unless nothing was
-- loaded before the context ended or the attempts were used up.
pub run-held :
    (c : Chain) (fuel n : ℕ) (w : World)
    → ((t : ℕ) (s : State) → c.load t ≡ some s → Rests s)
    → ((run c fuel n w).1.trace ≡ w.trace) × EndsAtRest c (run c fuel n w).0
unfolding run ◌>>=◌
run-held c fuel n w all = then_held c fuel (carry_on c fuel n) w all
