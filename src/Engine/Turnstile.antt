-- ===== src/Engine/Turnstile.antt =====
-- rewrite/cmd/engine/turnstile.go: execution slots in the order requests were filed. The mutex makes each
-- operation one step, so an interleaving of the watchers is a list of moves.
pub mod Order
pub mod Slots
pub mod Acquire
use lass_das.Base.{
  ℕ, zero, suc, ◌-◌, Bool, true, false, Option, none, some, List, [], ◌∷◌, ◌≡◌, if◌then◌else◌, any,
  ltb, ℤ, same_int, less_int,
}

-- `waiting` is the set of the line and `taken` the number of values in the channel `slots`.
pub record Turnstile : Type 0 where
  pub capacity : ℕ
  pub taken : ℕ
  pub waiting : List ℤ

abbrev pub new_turnstile : ℕ → Turnstile
new_turnstile capacity = record { capacity = capacity; taken = 0; waiting = [] }

unfoldable pub is_waiting : ℤ → List ℤ → Bool
is_waiting id line = any (same_int id) line

-- `waiting[id] = true`.
unfoldable pub add_waiting : ℤ → List ℤ → List ℤ
add_waiting id line = if is_waiting id line then line else id ∷ line

-- `delete(waiting, id)`.
unfoldable pub remove_waiting : ℤ → List ℤ → List ℤ
remove_waiting id [] = []
remove_waiting id (other ∷ line) =
    let rest = remove_waiting id line in if same_int id other then rest else other ∷ rest

unfoldable pub enter : ℤ → Turnstile → Turnstile
unfolding add_waiting
enter id t = record t { waiting = add_waiting id t.waiting }

-- Some request in line was filed earlier.
unfoldable pub is_behind : ℤ → List ℤ → Bool
is_behind id line = any (λ other. less_int other id) line

unfoldable pub try_slot : ℤ → Turnstile → Bool × Turnstile
unfolding enter is_behind remove_waiting
try_slot id t =
    if is_behind id (enter id t).waiting
    then (false, enter id t)
    else if ltb t.taken t.capacity
    then (true, record t { taken = suc t.taken; waiting = remove_waiting id (enter id t).waiting })
    else (false, enter id t)

unfoldable pub leave : ℤ → Turnstile → Turnstile
unfolding remove_waiting
leave id t = record t { waiting = remove_waiting id t.waiting }

-- `none` where the receive from an empty channel blocks.
unfoldable pub release : Turnstile → Option Turnstile
release t = if ltb 0 t.taken then some (record t { taken = t.taken - 1 }) else none

-- What one of the watchers does, with what it saw.
pub data Move : Type 0 where
  entered took refused left : ℤ → Move
  released : Move

pub data Step : Turnstile → Move → Turnstile → Type 0 where
  enters : {t u : Turnstile} → (id : ℤ) → u ≡ enter id t → Step t (entered id) u
  takes : {t u : Turnstile} → (id : ℤ) → try_slot id t ≡ (true, u) → Step t (took id) u
  waits : {t u : Turnstile} → (id : ℤ) → try_slot id t ≡ (false, u) → Step t (refused id) u
  leaves : {t u : Turnstile} → (id : ℤ) → u ≡ leave id t → Step t (left id) u
  releases : {t u : Turnstile} → release t ≡ some u → Step t released u

-- Any number of moves of any watchers, in the order in which they take the mutex.
pub data Moves : Turnstile → List Move → Turnstile → Type 0 where
  stay : {t : Turnstile} {moves : List Move} {u : Turnstile} → moves ≡ [] → t ≡ u → Moves t moves u
  go :
      {t : Turnstile} {all : List Move} {v : Turnstile}
      → (move : Move) (moves : List Move) (u : Turnstile) → all ≡ move ∷ moves
      → Step t move u
      → Moves u moves v
      → Moves t all v
