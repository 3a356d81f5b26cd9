-- ===== src/Chain/Run/WriteAhead.antt =====
-- chain.go, Run: the saves before the launches.
use lass_das.Base.{ℕ, zero, suc, Option, none, some, List, [], ◌∷◌, ◌≡◌, refl, inl, inr, Bool-cases}
use lass_das.Chain.Types.{Assignment, State, Result}
use lass_das.Chain.Run.Monad.{
  Chain, Stop, Event, saved, launched, World, Outcome, go_on, halt, M, bind_outcome, ret, stop, ask,
  note, ◌>>=◌, ◌>>◌, check_ended, wait, save, load_state,
}
use lass_das.Chain.Run.Phases.{Loop}
use lass_das.Chain.Run.Launch.{
  start_launch, round, rounds, flow_loop, carry_on, held, run, attach, recover_pending, start_loop,
}
use lass_das.Chain.Run.Rules.{Good, Keeps, Keeps-bind, Keeps-maybe, Keeps-ret, Keeps-stop}
use lass_das.Chain.Run.Kept.{
  IsKept, check_ended-Keeps, round_body-Keeps, attach-Keeps, recover_pending-Keeps,
}

-- The state that reached the store last.
abbrev pub last_saved : List Event → Option State
last_saved [] = none
last_saved (saved s ∷ earlier) = some s
last_saved (launched _ _ ∷ earlier) = last_saved earlier

-- When an action was launched, the store held the state of the launch, with the action pending.
abbrev pub WriteAhead : List Event → Type 0
WriteAhead [] = Unit {0}
WriteAhead (saved s ∷ earlier) = WriteAhead earlier
WriteAhead (launched a s ∷ earlier) =
    (last_saved earlier ≡ some s) × (s.pending ≡ some a) × WriteAhead earlier

abbrev IsSafe : World → Type 0
IsSafe w = WriteAhead w.trace

abbrev AnyStop : Stop → Type 0
AnyStop _ = Unit {0}

-- After a save the store holds the state.
abbrev Holds : State → {A : Type 0} → Outcome A × World → Type 0
Holds s (go_on _, w) = (last_saved w.trace ≡ some s) × WriteAhead w.trace
Holds s (halt _, w) = WriteAhead w.trace × Unit {0}

save-Holds : (c : Chain) (fuel : ℕ) (s : State) (w : World) → IsSafe w → Holds s (save c fuel s w)
unfolding save check_ended wait ◌>>=◌
save-Holds c zero s w h = (h, tt)
save-Holds c (suc fuel) s w h = elim (Bool-cases (c.ended w.tick)) [
  | inl over ↦ rw over (h, tt)
  | inr live ↦ elim (Bool-cases (c.saves (suc w.tick))) [
    | inl ok ↦ rw (live, ok) (refl, h)
    | inr no_luck ↦ elim (Bool-cases (c.ended (suc (suc w.tick)))) [
      | inl over ↦ rw (live, no_luck, over) (h, tt)
      | inr on_time ↦ rw (live, no_luck, on_time) (save-Holds c fuel s _ h)
    ]
  ]
]

held-Good : (s : State) (r : Outcome (Unit {0}) × World) → Holds s r → Good IsSafe AnyStop r
held-Good s (go_on _, w) h = h.1
held-Good s (halt _, w) h = h

save-Keeps : (c : Chain) (fuel : ℕ) (s : State) → Keeps IsSafe AnyStop (save c fuel s)
save-Keeps c fuel s = record { at = λ w h. held-Good s (save c fuel s w) (save-Holds c fuel s w h) }

-- What follows the save of the pending action.
abbrev launching : Chain → Assignment → State → M (State × List Result)
launching c a s = do note (launched a s); results ← ask (λ t. c.execute t a s); ret (s, results)

launch_held :
    (c : Chain) (a : Assignment) (s : State) (r : Outcome (Unit {0}) × World)
    → s.pending ≡ some a
    → Holds s r
    → Good IsSafe AnyStop (bind_outcome r (λ _. launching c a s))
unfolding ◌>>=◌
launch_held c a s (go_on _, w) p h = (h.0, p, h.1)
launch_held c a s (halt _, w) p h = h

start_launch-Keeps :
    (c : Chain) (fuel : ℕ) (s : State) (a : Assignment)
    → Keeps IsSafe AnyStop (start_launch c fuel s a)
unfolding start_launch ◌>>=◌
start_launch-Keeps c fuel s a = record {
  at = λ w h. launch_held c a _ (save c fuel _ _) refl (save-Holds c fuel _ _ h);
}

IsSafe-IsKept : (c : Chain) (fuel : ℕ) → IsKept IsSafe AnyStop c fuel
unfolding ask note
IsSafe-IsKept c fuel = record {
  keeps_ask = λ f. record { at = λ w h. h };
  keeps_saved = λ s. record { at = λ w h. h };
  keeps_save = save-Keeps c fuel;
  keeps_launch = start_launch-Keeps c fuel;
  allowed = λ s fine. tt;
}

rounds-Keeps : (c : Chain) (fuel n : ℕ) (l : Loop) → Keeps IsSafe AnyStop (rounds c fuel n l)
unfolding rounds round
rounds-Keeps c fuel zero l = Keeps-stop Stop.out_of_fuel tt
rounds-Keeps c fuel (suc n) l =
    let k = IsSafe-IsKept c fuel in
    Keeps-bind (round c fuel l) _
      (Keeps-bind (check_ended c) _ (check_ended-Keeps k) (λ _. round_body-Keeps k l))
      (λ flow. rounds-Keeps c fuel n (flow_loop flow))

load_state-Keeps : (c : Chain) (fuel : ℕ) → Keeps IsSafe AnyStop (load_state c fuel)
unfolding load_state wait
load_state-Keeps c zero = Keeps-stop Stop.out_of_fuel tt
load_state-Keeps c (suc fuel) =
    let k = IsSafe-IsKept c fuel in
    Keeps-bind (ask c.load) _ (k.keeps_ask c.load) (λ loaded.
      Keeps-maybe loaded _ ret
        (Keeps-bind (check_ended c) _ (check_ended-Keeps k) (λ _. load_state-Keeps c fuel))
        (λ s. Keeps-ret s))

-- Whatever the router, the executor, the gate and the store answer, and however long it goes on:
-- where every launch noted before was so, every launch of Run is of an action that the store holds
-- as pending, in the very state that the launch is given.
pub run-WriteAhead :
    (c : Chain) (fuel n : ℕ) (w : World) → WriteAhead w.trace → WriteAhead (run c fuel n w).1.trace
unfolding run carry_on
run-WriteAhead c fuel n w h = good (run c fuel n w) (kept.at w h)
  where
    kept : Keeps IsSafe AnyStop (run c fuel n)
    kept =
        let k = IsSafe-IsKept c fuel in
        Keeps-bind (load_state c fuel) _ (load_state-Keeps c fuel) (λ s.
          Keeps-maybe (held s) (carry_on c fuel n s) stop
            (Keeps-bind (attach c fuel s) _ (attach-Keeps k s) (λ s'.
              Keeps-bind (recover_pending c fuel s') _ (recover_pending-Keeps k s')
                (λ ready. rounds-Keeps c fuel n (start_loop c ready))))
            (λ reason. Keeps-stop reason tt))

    good : (r : Outcome (Unit {0}) × World) → Good IsSafe AnyStop r → IsSafe r.1
    good (go_on _, w) g = g
    good (halt _, w) g = g.0
