-- ===== src/Engine/Turnstile/Order.antt =====
-- rewrite/cmd/engine/turnstile.go: the order of the line.
use lass_das.Base.{
  Bool, true, false, List, [], ◌∷◌, ◌≡◌, ◌≢◌, refl, sym, ap, inl, inr, Bool-cases, In, ℤ, same_int,
  less_int, same_int→≡, arith,
}
use lass_das.Engine.Turnstile.Slots.{taken_line, refused_line, released_line}
use lass_das.Engine.Turnstile.{
  Turnstile, Move, took, left, Step, Moves, is_waiting, add_waiting, remove_waiting, enter,
  is_behind, try_slot, leave,
}

pub add_waiting-keeps :
    (id a : ℤ) (line : List ℤ)
    → is_waiting a line ≡ true
    → is_waiting a (add_waiting id line) ≡ true
unfolding add_waiting is_waiting
add_waiting-keeps id a line h = ground (arith, h)

remove_waiting-keeps :
    (id a : ℤ) (line : List ℤ)
    → id ≢ a
    → is_waiting a line ≡ true
    → is_waiting a (remove_waiting id line) ≡ true
unfolding remove_waiting is_waiting
remove_waiting-keeps id a [] n h = cc
remove_waiting-keeps id a (other ∷ line) n h = elim (Bool-cases (same_int id other)) [
  | inr apart ↦ rw apart (ground (arith, h, remove_waiting-keeps id a line n))
  | inl same ↦ elim (Bool-cases (same_int a other)) [
    | inl here ↦ absurd (n (rw (same_int→≡ id other same, same_int→≡ a other here)))
    | inr more ↦ rw same (remove_waiting-keeps id a line n (rw more at h))
  ]
]

is_behind-waiting :
    (a b : ℤ) (line : List ℤ)
    → less_int a b ≡ true
    → is_waiting a line ≡ true
    → is_behind b line ≡ true
unfolding is_behind is_waiting
is_behind-waiting a b [] l h = cc
is_behind-waiting a b (other ∷ line) l h = elim (Bool-cases (same_int a other)) [
  | inl here ↦ rw (← same_int→≡ a other here, l)
  | inr more ↦ ground (arith, is_behind-waiting a b line l (rw more at h))
]

try_slot-behind :
    (t : Turnstile) (a b : ℤ)
    → less_int a b ≡ true
    → is_waiting a t.waiting ≡ true
    → try_slot b t ≡ (false, enter b t)
unfolding try_slot enter
try_slot-behind t a b l h =
    rw (is_behind-waiting a b (add_waiting b t.waiting) l (add_waiting-keeps b a t.waiting h))

-- The requests that are kept in line by a move.
Step-keeps :
    (t u : Turnstile) (move : Move) (a : ℤ)
    → Step t move u
    → took a ≢ move
    → left a ≢ move
    → is_waiting a t.waiting ≡ true
    → is_waiting a u.waiting ≡ true
unfolding enter leave
Step-keeps t u move a (Step.enters id e) nt nl h = rw e (add_waiting-keeps id a t.waiting h)
Step-keeps t u move a (Step.takes id e) nt nl h = rw (taken_line t u id e) (
    remove_waiting-keeps id a _ (λ same. nt (ap took (sym same)))
      (add_waiting-keeps id a t.waiting h))
Step-keeps t u move a (Step.waits id e) nt nl h =
    rw (refused_line t u id e) (add_waiting-keeps id a t.waiting h)
Step-keeps t u move a (Step.leaves id e) nt nl h =
    rw e (remove_waiting-keeps id a t.waiting (λ same. nl (ap left (sym same))) h)
Step-keeps t u move a (Step.releases e) nt nl h = rw (released_line t u e) h

Step-refuses :
    (t u : Turnstile) (a b : ℤ)
    → Step t (took b) u
    → less_int a b ≡ true
    → is_waiting a t.waiting ≡ true
    → ⊥
Step-refuses t u a b step l h = taken_step (took b) step refl
  where
    taken_step : (move : Move) → Step t move u → move ≡ took b → ⊥
    taken_step move (Step.enters id e) q = cc
    taken_step move (Step.takes id e) q = not_taken (rw (same_id q, try_slot-behind t a b l h) at e)
      where
        same_id : took id ≡ took b → id ≡ b
        same_id q = cc

        not_taken : ◌≡◌ {A = Bool × Turnstile} (false, enter b t) (true, u) → ⊥
        not_taken x = false≢true (ap (λ (r : Bool × Turnstile). r.0) x)
          where
            false≢true : false ≡ true → ⊥
            false≢true x = cc
    taken_step move (Step.waits id e) q = cc
    taken_step move (Step.leaves id e) q = cc
    taken_step move (Step.releases e) q = cc

-- However the watchers interleave: as long as a request that is in line neither took a slot nor
-- left the line, no request filed later takes a slot.
pub Moves-ordered :
    (t u : Turnstile) (moves : List Move) (a b : ℤ)
    → Moves t moves u
    → is_waiting a t.waiting ≡ true
    → (In (took a) moves → ⊥)
    → (In (left a) moves → ⊥)
    → less_int a b ≡ true
    → In (took b) moves
    → ⊥
Moves-ordered t u moves a b (Moves.stay e same) h nt nl l i = rw e at i
Moves-ordered t v all a b (Moves.go move moves u e step rest) h nt nl l i = elim (rw e at i) [
  | inl now ↦ Step-refuses t u a b (rw (← now) at step) l h
  | inr later ↦
      Moves-ordered u v moves a b rest
        (Step-keeps t u move a step (λ x. nt (rw e (inl x))) (λ x. nl (rw e (inl x))) h)
        (λ x. nt (rw e (inr x))) (λ x. nl (rw e (inr x))) l later
]
