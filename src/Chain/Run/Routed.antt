-- ===== src/Chain/Run/Routed.antt =====
-- chain.go, Run: the router's answer and what a round goes on with.
use lass_das.Base.{ℕ, suc, true, ◌≡◌, refl, sym, ap, subst, ◌∙◌, inl, inr, Bool-cases}
use lass_das.Chain.Types.{Assignment, State, Time}
use lass_das.Chain.Offers.{offered}
use lass_das.Chain.Routers.{Routed, RouteError, assigned, failed, not_connected}
use lass_das.Chain.Run.Monad.{
  Chain, Stop, World, Outcome, go_on, halt, M, bind_outcome, ◌>>=◌, check_ended, wait, save,
}
use lass_das.Chain.Run.Phases.{Loop, Flow, again, on, hold, routed_to, route_phase}

-- The round does not go on: it starts over or the run ends.
abbrev NotOn : {A : Type 0} → Outcome (Flow A) × World → Type 0
NotOn (go_on (again l), w) = Unit {0}
NotOn (go_on (on a), w) = ⊥
NotOn (halt s, w) = Unit {0}

bind-NotOn :
    {A B : Type 0} (r : Outcome A × World) (f : A → M (Flow B))
    → ((a : A) (w : World) → NotOn (f a w))
    → NotOn (bind_outcome r f)
bind-NotOn (go_on a, w) f h = h a w
bind-NotOn (halt s, w) f h = tt

failed-NotOn :
    (c : Chain) (fuel : ℕ) (l : Loop) (s : State) (started : Time) (e : RouteError) (w : World)
    → NotOn (routed_to c fuel l s started (failed e) w)
unfolding routed_to ◌>>=◌
failed-NotOn c fuel l s started e w =
    bind-NotOn (save c fuel _ _) _ (λ _ w'. bind-NotOn (wait c w') _ (λ _ w''. tt))

-- A round of Run goes on with an action only as the router answered it for the state at hand, and
-- only where the action is offered there; the state is the one that the router was given.
pub route_phase-offered :
    (c : Chain) (fuel : ℕ) (l : Loop) (s s' : State) (started : Time) (a : Assignment)
    (w w' : World)
    → route_phase c fuel l s started w ≡ (go_on (on (s', a)), w')
    → (c.next w.tick s ≡ assigned a) × (offered s a.role ≡ true) × (s' ≡ s)
unfolding route_phase check_ended ◌>>=◌ hold routed_to
route_phase-offered c fuel l s s' started a w w' h = elim (Bool-cases (c.ended (suc w.tick))) [
  | inl over ↦ absurd (halted (rw over at h))
  | inr live ↦ by_answer _ (c.next w.tick s) refl (rw live at h)
]
  where
    Next : Type 0
    Next = Outcome (Flow (State × Assignment)) × World

    halted :
        {reason : Stop} {v : World} → ◌≡◌ {A = Next} (halt reason, v) (go_on (on (s', a)), w') → ⊥
    halted x = cc

    went_on :
        {b : Assignment} {v : World}
        → ◌≡◌ {A = Next} (go_on (on (s, b)), v) (go_on (on (s', a)), w')
        → (s ≡ s') × (b ≡ a)
    went_on x = (cc, cc)

    not_on :
        (e : RouteError) (v : World)
        → routed_to c fuel l s started (failed e) v ≡ (go_on (on (s', a)), w')
        → ⊥
    not_on e v x = subst NotOn x (failed-NotOn c fuel l s started e v)

    by_answer :
        (v : World) (r : Routed)
        → c.next w.tick s ≡ r
        → routed_to c fuel l s started (hold s r) v ≡ (go_on (on (s', a)), w')
        → (c.next w.tick s ≡ assigned a) × (offered s a.role ≡ true) × (s' ≡ s)
    by_answer v (failed e) q x = absurd (not_on e _ x)
    by_answer v (assigned b) q x = elim (Bool-cases (offered s b.role)) [
      | inr out ↦ absurd (not_on not_connected _ (rw out at x))
      | inl ok ↦
          let (same, answer) = went_on (rw ok at x) in
          (q ∙ ap assigned answer, rw (← answer) ok, sym same)
    ]
