-- ===== src/Chain/Run/Returns.antt =====
-- chain.go, Run: the end of the context, the loads, the saves and the rounds.
use lass_das.Base.{
  ℕ, zero, suc, ◌+◌, ◌≤◌, ◌<◌, true, false, Option, none, some, ◌≡◌, ◌≢◌, refl, inl, inr,
  Bool-cases, Option-cases, arith,
}
use lass_das.Chain.Types.{Assignment, State}
use lass_das.Chain.Run.Monad.{
  Chain, Stop, Event, saved, World, Outcome, go_on, halt, M, bind_outcome, stop, ask, note, maybe,
  ◌>>=◌, check_ended, wait, save, load_state,
}
use lass_das.Chain.Run.Phases.{Loop, Flow}
use lass_das.Chain.Run.Launch.{
  start_launch, round_body, round, rounds, flow_loop, carry_on, held, run, attach, recover_pending,
  start_loop,
}
use lass_das.Chain.Run.Rules.{Good, Keeps, keeps_rules, Keeps-bind, Keeps-stop}
use lass_das.Chain.Run.Kept.{IsKept, round_body-Keeps, attach-Keeps, recover_pending-Keeps}

-- The clock of the calls has reached `b`.
abbrev Past : ℕ → World → Type 0
Past b w = b ≤ w.tick

abbrev HasReturned : Stop → Type 0
HasReturned s = s ≢ Stop.out_of_fuel

cancelled_returned : HasReturned Stop.cancelled
cancelled_returned e = cc

then_rounds :
    (k : Loop → M (Unit {0})) (t : ℕ) (r : Outcome (Flow Loop) × World)
    → ((l : Loop) (w : World) → t ≤ w.tick → Good (Past 0) HasReturned (k l w))
    → Good (Past t) HasReturned r
    → Good (Past 0) HasReturned (bind_outcome r (λ flow. k (flow_loop flow)))
then_rounds k t (go_on flow, w) rest g = rest (flow_loop flow) w g
then_rounds k t (halt s, w) rest g = (omega arith, g.1)

module _ (c : Chain) (end : ℕ) (ends : (t : ℕ) → end ≤ t → c.ended t ≡ true) where
  before_end : (t : ℕ) → c.ended t ≡ false → t < end
  before_end t e = ground (arith, ends t)

  save-Past :
      (b fuel : ℕ) (s : State) (w : World)
      → b ≤ w.tick
      → 1 ≤ fuel
      → end < fuel + w.tick
      → Good (Past b) HasReturned (save c fuel s w)
  unfolding save check_ended wait ◌>>=◌
  save-Past b zero s w h p q = absurd (omega arith)
  save-Past b (suc fuel) s w h p q = elim (Bool-cases (c.ended w.tick)) [
    | inl over ↦ rw over (omega arith, cancelled_returned)
    | inr live ↦ elim (Bool-cases (c.saves (suc w.tick))) [
      | inl ok ↦ rw (live, ok) (omega arith)
      | inr no_luck ↦ elim (Bool-cases (c.ended (suc (suc w.tick)))) [
        | inl over ↦ rw (live, no_luck, over) (omega arith, cancelled_returned)
        | inr on_time ↦
            let early = before_end (suc (suc w.tick)) on_time in
            rw (live, no_luck, on_time)
              (save-Past b fuel s _ (omega arith) (omega (arith, early)) (omega arith))
      ]
    ]
  ]

  module _ (fuel : ℕ) (enough : end < fuel) where
    ask-Past : (b : ℕ) {A : Type 0} (f : ℕ → A) → Keeps (Past b) HasReturned (ask f)
    unfolding ask
    ask-Past b f = record { at = λ w h. omega arith }

    note-Past : (b : ℕ) (e : Event) → Keeps (Past b) HasReturned (note e)
    unfolding note
    note-Past b e = record { at = λ w h. h }

    save_kept : (b : ℕ) (s : State) → Keeps (Past b) HasReturned (save c fuel s)
    save_kept b s = record { at = λ w h. save-Past b fuel s w h (omega arith) (omega arith) }

    launch_kept :
        (b : ℕ) (s : State) (a : Assignment) → Keeps (Past b) HasReturned (start_launch c fuel s a)
    unfolding start_launch
    launch_kept b s a = search (keeps_rules, ask-Past b, note-Past b, save_kept b) depth 9

    Past-IsKept : (b : ℕ) → IsKept (Past b) HasReturned c fuel
    Past-IsKept b = record {
      keeps_ask = ask-Past b;
      keeps_saved = λ s. note-Past b (saved s);
      keeps_save = save_kept b;
      keeps_launch = launch_kept b;
      allowed = λ s fine. fine;
    }

    rounds-Past :
        (n : ℕ) (l : Loop) (w : World)
        → 1 ≤ n
        → end < n + w.tick
        → Good (Past 0) HasReturned (rounds c fuel n l w)
    unfolding rounds round check_ended ◌>>=◌
    rounds-Past zero l w p q = absurd (omega arith)
    rounds-Past (suc n) l w p q = elim (Bool-cases (c.ended w.tick)) [
      | inl over ↦ rw over (omega arith, cancelled_returned)
      | inr live ↦
          let early = before_end w.tick live in
          rw live (
            then_rounds (rounds c fuel n) (suc w.tick) (round_body c fuel l _)
              (λ l' w' past. rounds-Past n l' w' (omega (arith, early)) (omega (arith, past)))
              ((round_body-Keeps (Past-IsKept (suc w.tick)) l).at _ (omega arith)))
    ]

    load_state-Past :
        (f : ℕ) (w : World)
        → 1 ≤ f
        → end < f + w.tick
        → Good (Past 0) HasReturned (load_state c f w)
    unfolding load_state check_ended wait ◌>>=◌
    load_state-Past zero w p q = absurd (omega arith)
    load_state-Past (suc f) w p q = elim (Option-cases (c.load w.tick)) [
      | inr (s, e) ↦ rw e (omega arith)
      | inl e ↦ elim (Bool-cases (c.ended (suc w.tick))) [
        | inl over ↦ rw (e, over) (omega arith, cancelled_returned)
        | inr live ↦
            let early = before_end (suc w.tick) live in
            rw (e, live) (load_state-Past f _ (omega (arith, early)) (omega arith))
      ]
    ]

    load_state_kept : Keeps (Past 0) HasReturned (load_state c fuel)
    load_state_kept = record { at = λ w h. load_state-Past fuel w (omega arith) (omega arith) }

    held_returned : (s : State) (reason : Stop) → held s ≡ some reason → HasReturned reason
    unfolding held
    held_returned s reason h e = ground (arith, h, e)

    run_kept : (n : ℕ) → end < n → Keeps (Past 0) HasReturned (run c fuel n)
    unfolding run carry_on
    run_kept n rounds_enough =
        let k = Past-IsKept 0 in
        Keeps-bind (load_state c fuel) _ load_state_kept (λ s. go s (held s) (held_returned s))
      where
        go :
            (s : State) (o : Option Stop)
            → ((reason : Stop) → o ≡ some reason → HasReturned reason)
            → Keeps (Past 0) HasReturned (maybe o (carry_on c fuel n s) stop)
        go s (some reason) fine = Keeps-stop reason (fine reason refl)
        go s none fine =
            let k = Past-IsKept 0 in
            Keeps-bind (attach c fuel s) _ (attach-Keeps k s) (λ s'.
              Keeps-bind (recover_pending c fuel s') _ (recover_pending-Keeps k s') (λ ready.
                record {
                  at = λ w h.
                      rounds-Past n (start_loop c ready) w (omega (arith, rounds_enough))
                        (omega (arith, rounds_enough));
                }))

-- Where the context has ended from some tick on, a run that is given more rounds and more attempts
-- of a load or a save than that tick returns, whatever else it calls answers.
pub run_returns :
    (c : Chain) (end fuel n : ℕ) (w : World)
    → ((t : ℕ) → end ≤ t → c.ended t ≡ true)
    → end < fuel
    → end < n
    → (run c fuel n w).0 ≢ halt Stop.out_of_fuel
run_returns c end fuel n w ends p q =
    returned (run c fuel n w) ((run_kept c end ends fuel p n q).at w (omega arith))
  where
    returned :
        (r : Outcome (Unit {0}) × World) → Good (Past 0) HasReturned r → r.0 ≢ halt Stop.out_of_fuel
    returned (go_on _, w) g e = cc
    returned (halt s, w) g e = g.1 (same e)
      where
        same : {s t : Stop} → ◌≡◌ {A = Outcome (Unit {0})} (halt s) (halt t) → s ≡ t
        same e = cc
