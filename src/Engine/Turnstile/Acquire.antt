-- ===== src/Engine/Turnstile/Acquire.antt =====
-- rewrite/cmd/engine/turnstile.go: acquire.
use lass_das.Base.{
  ℕ, zero, suc, ◌+◌, ◌<◌, ◌≤◌, Bool, true, false, List, [], ◌∷◌, ◌≡◌, ◌≢◌, refl, sym, ◌∙◌, inl, inr,
  Bool-cases, if◌then◌else◌, ltb, ℤ, same_int, arith,
}
use lass_das.Engine.Turnstile.{Turnstile, is_waiting, remove_waiting, enter, try_slot, leave}
use lass_das.Engine.Turnstile.Slots.{try_slot-cases}

-- How the wait ends. `still_waiting` is the model's own: the source goes on.
pub data Acquired : Type 0 where
  acquired cancelled still_waiting : Acquired

-- The loop of `acquire`: a try at each tick, the other watchers between two of them, until the
-- context has ended.
unfoldable pub acquire :
    (ℕ → Bool) → (ℕ → Turnstile → Turnstile) → ℤ → ℕ → ℕ → Turnstile → Acquired × Turnstile
acquire ended others id tick zero t = (still_waiting, t)
acquire ended others id tick (suc fuel) t =
    let tried = try_slot id t in
    let next = acquire ended others id (suc tick) fuel (others tick tried.1) in
    if tried.0
    then (acquired, tried.1)
    else if ended tick
    then (cancelled, leave id (others tick tried.1))
    else next

remove_waiting-gone : (id : ℤ) (line : List ℤ) → is_waiting id (remove_waiting id line) ≡ false
unfolding is_waiting remove_waiting
remove_waiting-gone id [] = refl
remove_waiting-gone id (other ∷ line) = elim (Bool-cases (same_int id other)) [
  | inl same ↦ rw same (remove_waiting-gone id line)
  | inr apart ↦ rw (apart, apart) (remove_waiting-gone id line)
]

-- The wait is over, and the request is not in line.
abbrev pub IsOver : ℤ → Acquired × Turnstile → Type 0
IsOver id (outcome, t) = (outcome ≢ still_waiting) × (is_waiting id t.waiting ≡ false)

acquired-ne-still : acquired ≢ still_waiting
acquired-ne-still e = cc

cancelled-ne-still : cancelled ≢ still_waiting
cancelled-ne-still e = cc

-- Whatever the other watchers do: where the context has ended at some tick, an acquire of more
-- tries than ticks until then is over, with a slot or without one, and the request is not in line.
pub acquire_returns :
    (ended : ℕ → Bool) (others : ℕ → Turnstile → Turnstile) (id : ℤ) (tick end fuel : ℕ)
    (t : Turnstile)
    → ended end ≡ true
    → tick ≤ end
    → end < tick + fuel
    → IsOver id (acquire ended others id tick fuel t)
unfolding acquire leave
acquire_returns ended others id tick end zero t e p q = absurd (omega arith)
acquire_returns ended others id tick end (suc fuel) t e p q = elim (try_slot-cases t id) [
  | inr (_, granting) ↦ rw granting (acquired-ne-still, remove_waiting-gone id _)
  | inl refusing ↦ elim (Bool-cases (ended tick)) [
    | inl over ↦ rw (refusing, over) (cancelled-ne-still, remove_waiting-gone id _)
    | inr live ↦
        rw (refusing, live)
          (acquire_returns ended others id (suc tick) end fuel (others tick (enter id t)) e
            (later live) (omega arith))
  ]
]
  where
    later : ended tick ≡ false → suc tick ≤ end
    later live = elim (Bool-cases (ltb tick end)) [
      | inl before ↦ ground arith
      | inr here ↦ let now : end ≡ tick = ground arith in absurd (clash (sym (rw now at e) ∙ live))
    ]
      where
        clash : true ≡ false → ⊥
        clash x = cc
