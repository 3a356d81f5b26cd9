-- ===== src/Examples/Slots.antt =====
-- The theorems about the turnstile, at a few watchers.
use lass_das.Base.{
  ℕ, true, List, [], ◌∷◌, ◌≡◌, ◌≤◌, ◌+◌, refl, In, arith, inl, inr, pos, leb, if◌then◌else◌,
}
use lass_das.Engine.Turnstile.{
  Turnstile, Move, entered, took, refused, left, released, Step, Moves, new_turnstile, enter,
  try_slot, release, is_waiting, add_waiting, is_behind, remove_waiting, leave,
}
use lass_das.Engine.Turnstile.Order.{Moves-ordered}
use lass_das.Engine.Turnstile.Slots.{Moves-within, taken_in, released_in}
use lass_das.Engine.Turnstile.Acquire.{IsOver, acquire, acquire_returns}

-- One slot, and the request 3 in line.
abbrev line : Turnstile
line = record { capacity = 1; taken = 0; waiting = pos 3 ∷ [] }

abbrev later_moves : List Move
later_moves = entered (pos 5) ∷ refused (pos 5) ∷ []

abbrev two_waiting : Turnstile
two_waiting = record { capacity = 1; taken = 0; waiting = pos 5 ∷ pos 3 ∷ [] }

later_waits : Moves line later_moves two_waiting
unfolding enter add_waiting is_waiting try_slot is_behind
later_waits =
    Moves.go (entered (pos 5)) (refused (pos 5) ∷ []) two_waiting refl (Step.enters (pos 5) refl) (
      Moves.go (refused (pos 5)) [] two_waiting refl (Step.waits (pos 5) refl)
        (Moves.stay refl refl))

waiting_3 : is_waiting (pos 3) line.waiting ≡ true
unfolding is_waiting
waiting_3 = refl

not_taken_3 : In (took (pos 3)) later_moves → ⊥
not_taken_3 (inl e) = cc
not_taken_3 (inr (inl e)) = cc
not_taken_3 (inr (inr e)) = e

not_left_3 : In (left (pos 3)) later_moves → ⊥
not_left_3 (inl e) = cc
not_left_3 (inr (inl e)) = cc
not_left_3 (inr (inr e)) = e

Moves-ordered_example : In (took (pos 5)) later_moves → ⊥
Moves-ordered_example =
    Moves-ordered line two_waiting later_moves (pos 3) (pos 5) later_waits waiting_3 not_taken_3
      not_left_3 refl

abbrev slot_moves : List Move
slot_moves = took (pos 3) ∷ released ∷ []

abbrev slot_held : Turnstile
slot_held = record { capacity = 1; taken = 1; waiting = [] }

slot_used : Moves (new_turnstile 1) slot_moves (new_turnstile 1)
unfolding enter add_waiting is_waiting try_slot is_behind remove_waiting release
slot_used =
    Moves.go (took (pos 3)) (released ∷ []) slot_held refl (Step.takes (pos 3) refl)
      (Moves.go released [] (new_turnstile 1) refl (Step.releases refl) (Moves.stay refl refl))

Moves-within_example : (0 ≤ 1) × (taken_in slot_moves ≡ 0 + released_in slot_moves)
Moves-within_example = Moves-within 1 (new_turnstile 1) slot_moves slot_used

-- The request 5 waits behind 3, which leaves the line at the second tick.
abbrev others_leave : ℕ → Turnstile → Turnstile
others_leave tick t = if leb 2 tick then leave (pos 3) t else t

acquire_returns_example :
    IsOver (pos 5) (acquire (λ tick. leb 9 tick) others_leave (pos 5) 0 10 line)
acquire_returns_example =
    acquire_returns (λ tick. leb 9 tick) others_leave (pos 5) 0 9 10 line refl (omega arith)
      (omega arith)
