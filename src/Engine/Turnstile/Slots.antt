-- ===== src/Engine/Turnstile/Slots.antt =====
-- rewrite/cmd/engine/turnstile.go: the slots that are taken and given back.
use lass_das.Base.{
  ℕ, suc, ◌+◌, ◌<◌, ◌≤◌, Bool, true, false, some, List, [], ◌∷◌, ◌≡◌, ◌⊎◌, refl, sym, ap, ◌∙◌, inl,
  inr, Bool-cases, ltb, ℤ, arith, some_inj, none-ne-some, ltb→lt,
}
use lass_das.Engine.Turnstile.{
  Turnstile, Move, entered, took, refused, left, released, Step, Moves, add_waiting, remove_waiting,
  enter, is_behind, try_slot, leave, release, new_turnstile,
}

abbrev pub with_slot : ℤ → Turnstile → Turnstile
with_slot id t = record t {
  taken = suc t.taken;
  waiting = remove_waiting id (add_waiting id t.waiting);
}

pub try_slot-cases :
    (t : Turnstile) (id : ℤ)
    → (try_slot id t ≡ (false, enter id t))
      ⊎ ((t.taken < t.capacity) × (try_slot id t ≡ (true, with_slot id t)))
unfolding try_slot enter
try_slot-cases t id = elim (Bool-cases (is_behind id (add_waiting id t.waiting))) [
  | inl behind ↦ inl (rw behind)
  | inr first ↦ elim (Bool-cases (ltb t.taken t.capacity)) [
    | inl free ↦ inr (ltb→lt _ _ free, rw (first, free))
    | inr full ↦ inl (rw (first, full))
  ]
]

false-ne-true : {A : Type 0} {t u : A} → ◌≡◌ {A = Bool × A} (false, t) (true, u) → ⊥
false-ne-true e = distinct (ap (λ r. r.0) e)
  where
    distinct : false ≡ true → ⊥
    distinct x = cc

pub taken_state :
    (t u : Turnstile) (id : ℤ)
    → try_slot id t ≡ (true, u)
    → (t.taken < t.capacity) × (u ≡ with_slot id t)
taken_state t u id e = elim (try_slot-cases t id) [
  | inl refusing ↦ absurd (false-ne-true (sym refusing ∙ e))
  | inr (free, granting) ↦ (free, ap (λ (r : Bool × Turnstile). r.1) (sym e ∙ granting))
]

pub refused_state : (t u : Turnstile) (id : ℤ) → try_slot id t ≡ (false, u) → u ≡ enter id t
refused_state t u id e = elim (try_slot-cases t id) [
  | inl refusing ↦ ap (λ (r : Bool × Turnstile). r.1) (sym e ∙ refusing)
  | inr (_, granting) ↦ absurd (false-ne-true (sym e ∙ granting))
]

pub taken_line :
    (t u : Turnstile) (id : ℤ)
    → try_slot id t ≡ (true, u)
    → u.waiting ≡ remove_waiting id (add_waiting id t.waiting)
taken_line t u id e = ap (λ (s : Turnstile). s.waiting) (taken_state t u id e).1

pub refused_line :
    (t u : Turnstile) (id : ℤ) → try_slot id t ≡ (false, u) → u.waiting ≡ add_waiting id t.waiting
unfolding enter
refused_line t u id e = ap (λ (s : Turnstile). s.waiting) (refused_state t u id e)

released_state :
    (t u : Turnstile)
    → release t ≡ some u
    → (t.taken ≡ suc u.taken) × (u.capacity ≡ t.capacity) × (u.waiting ≡ t.waiting)
unfolding release
released_state t u e = elim (Bool-cases (ltb 0 t.taken)) [
  | inr empty ↦ absurd (none-ne-some (rw empty at e))
  | inl held ↦
      let same = some_inj (rw held at e) in
      rw (← same) (omega (arith, ltb→lt 0 t.taken held), refl, refl)
]

pub released_line : (t u : Turnstile) → release t ≡ some u → u.waiting ≡ t.waiting
released_line t u e = (released_state t u e).2

-- How often a slot was taken, and given back.
unfoldable pub taken_in : List Move → ℕ
taken_in [] = 0
taken_in (took id ∷ moves) = suc (taken_in moves)
taken_in (_ ∷ moves) = taken_in moves

unfoldable pub released_in : List Move → ℕ
released_in [] = 0
released_in (released ∷ moves) = suc (released_in moves)
released_in (_ ∷ moves) = released_in moves

-- What a line of moves does to the slots.
record Kept (t : Turnstile) (moves : List Move) (u : Turnstile) : Type 0 where
  within : u.taken ≤ u.capacity
  fixed : u.capacity ≡ t.capacity
  counted : t.taken + taken_in moves ≡ u.taken + released_in moves

Step-Kept :
    (t u : Turnstile) (move : Move) → Step t move u → t.taken ≤ t.capacity → Kept t (move ∷ []) u
unfolding enter leave taken_in released_in
Step-Kept t u move (Step.enters id e) h =
    rw e (record { within = h; fixed = refl; counted = omega arith })
Step-Kept t u move (Step.takes id e) h =
    let (free, same) = taken_state t u id e in
    rw same (record { within = omega (arith, free); fixed = refl; counted = omega arith })
Step-Kept t u move (Step.waits id e) h =
    rw (refused_state t u id e) (record { within = h; fixed = refl; counted = omega arith })
Step-Kept t u move (Step.leaves id e) h =
    rw e (record { within = h; fixed = refl; counted = omega arith })
Step-Kept t u move (Step.releases e) h =
    let (taken, capacity, _) = released_state t u e in
    record {
      within = omega (arith, taken, capacity);
      fixed = capacity;
      counted = omega (arith, taken);
    }

count_cons :
    (move : Move) (moves : List Move)
    → (taken_in (move ∷ moves) ≡ taken_in (move ∷ []) + taken_in moves)
      × (released_in (move ∷ moves) ≡ released_in (move ∷ []) + released_in moves)
unfolding taken_in released_in
count_cons (entered id) moves = (omega arith, omega arith)
count_cons (took id) moves = (omega arith, omega arith)
count_cons (refused id) moves = (omega arith, omega arith)
count_cons (left id) moves = (omega arith, omega arith)
count_cons released moves = (omega arith, omega arith)

Moves-Kept :
    (t u : Turnstile) (moves : List Move) → Moves t moves u → t.taken ≤ t.capacity → Kept t moves u
unfolding taken_in released_in
Moves-Kept t u moves (Moves.stay e same) h =
    rw (e, ← same) (record { within = h; fixed = refl; counted = omega arith })
Moves-Kept t v all (Moves.go move moves u e step rest) h =
    let k = Step-Kept t u move step h in
    let k' = Moves-Kept u v moves rest k.within in
    let (c, d) = count_cons move moves in
    rw e (record {
      within = k'.within;
      fixed = k'.fixed ∙ k.fixed;
      counted = omega (arith, k.counted, k'.counted, c, d);
    })

-- However the watchers interleave, from a new turnstile on: no more slots are held than there are,
-- and a slot is held for each time one was taken and not given back.
pub Moves-within :
    (capacity : ℕ) (u : Turnstile) (moves : List Move)
    → Moves (new_turnstile capacity) moves u
    → (u.taken ≤ capacity) × (taken_in moves ≡ u.taken + released_in moves)
Moves-within capacity u moves m =
    let k = Moves-Kept (new_turnstile capacity) u moves m (omega arith) in
    (omega (arith, k.within, k.fixed), omega (arith, k.counted))
