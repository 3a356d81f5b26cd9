-- ===== src/Engine/WorkLimit/Valid.antt =====
-- rewrite/cmd/engine/work_limit.go and pause.go: the operations on a record that was read.
use lass_das.Base.{
  Option, pos, suc, ◌<◌, String, ◌==◌, Bool, true, false, not, ◌&&◌, ◌||◌, none, some, List, [],
  ◌∷◌, ◌++◌, ◌≡◌, refl, inl, inr, Bool-cases, Option-cases, ltb, leb, last?, last?-snoc, is_some,
  lookup_or, arith,
}
use lass_das.Chain.Types.{Time, State}
use lass_das.Chain.Refusals.{approval_pause_text}
use lass_das.Engine.WorkLimit.{
  WorkClock, StageExits, PauseEpisode, WorkLimit, active_limit_pause, hard_exit_pause,
  known_pause_reason, is_stamped, valid_clock, valid_exits, valid_option, valid_pauses, valid_pause,
  valid_resume, is_applied, is_valid, is_held, elapsed_of, add_pause, exit_clock, count_exit, spent,
  no_notice, recover_clock, exit_stage, recover_exits, recover_work,
}

-- No count has reached its maximum.
unfoldable pub is_below : WorkLimit → Bool
unfolding valid_option
is_below r =
    valid_option (λ c. ltb c.hard_exits c.max_hard_exits) r.clock
    && valid_option (λ e. ltb e.count e.max) r.stage_exits

-- A record that can be read, with every count below its maximum unless it is held.
abbrev pub IsSound : WorkLimit → Type 0
IsSound r = (is_valid r && (is_held r || is_below r)) ≡ true

snoc-valid_pauses :
    (pauses : List PauseEpisode) (p : PauseEpisode)
    → valid_pauses pauses ≡ true
    → (elim (last? pauses) [ none ↦ false | some q ↦ not (is_applied q) ]) ≡ false
    → valid_pause p ≡ true
    → valid_pauses (pauses ++ p ∷ []) ≡ true
unfolding valid_pauses
snoc-valid_pauses [] p v l k = k
snoc-valid_pauses (q ∷ []) p v l k = ground (arith, v, l, k)
snoc-valid_pauses (q ∷ q' ∷ pauses) p v l k =
    ground (arith, v, snoc-valid_pauses (q' ∷ pauses) p (ground (arith, v)) l k)

-- The episode of a new pause is valid.
new_pause-valid :
    (reason : String) (at : Time) (clock : Option WorkClock)
    → known_pause_reason reason ≡ true
    → 0 < at
    → valid_option valid_clock clock ≡ true
    → valid_pause (record {
      reason = reason;
      at = at;
      notice_id = pos 0;
      resume = none;
      elapsed = elapsed_of clock;
    })
      ≡ true
unfolding valid_pause valid_resume valid_option valid_clock elapsed_of
new_pause-valid reason at none k t v = ground (arith, k)
new_pause-valid reason at (some c) k t v = ground (arith, k, v)

add_pause-is_held :
    (reason : String) (at : Time) (r : WorkLimit) → is_held (add_pause reason at r) ≡ true
unfolding add_pause is_held
add_pause-is_held reason at r = elim (Bool-cases (is_held r)) [
  | inl e ↦ rw (add_pause, e) e
  | inr e ↦ rw (add_pause, e, is_held, last?-snoc r.pauses)
]

add_pause-is_valid :
    (reason : String) (at : Time) (r : WorkLimit)
    → known_pause_reason reason ≡ true
    → 0 < at
    → is_valid r ≡ true
    → is_valid (add_pause reason at r) ≡ true
unfolding add_pause is_valid is_held
add_pause-is_valid reason at r k t v = elim (Bool-cases (is_held r)) [
  | inl e ↦ rw (add_pause, e) v
  | inr e ↦
      let p : PauseEpisode = record {
        reason = reason;
        at = at;
        elapsed = elapsed_of r.clock;
        notice_id = pos 0;
        resume = none;
      } in
      rw
        (
          add_pause,
          e,
          snoc-valid_pauses r.pauses p (ground (arith, v)) e
              (new_pause-valid reason at r.clock k t (ground (arith, v))),
        )
        (ground (arith, v))
]

pub add_pause-IsSound :
    (reason : String) (at : Time) (r : WorkLimit)
    → known_pause_reason reason ≡ true
    → 0 < at
    → is_valid r ≡ true
    → IsSound (add_pause reason at r)
add_pause-IsSound reason at r k t v =
    rw (add_pause-is_valid reason at r k t v, add_pause-is_held reason at r)

exits_known : known_pause_reason hard_exit_pause ≡ true
unfolding known_pause_reason ◌==◌ approval_pause_text lookup_or
exits_known = refl

pub limit_known : known_pause_reason active_limit_pause ≡ true
unfolding known_pause_reason ◌==◌ approval_pause_text lookup_or
limit_known = refl

-- One more forced exit below the maximum leaves the clock valid.
exit_clock-valid :
    (now : Time) (c : WorkClock)
    → 0 < now
    → valid_clock c ≡ true
    → c.hard_exits < c.max_hard_exits
    → valid_clock (exit_clock now c) ≡ true
unfolding valid_clock exit_clock is_stamped
exit_clock-valid now c t v b = ground (arith, v)

exit_stage-valid :
    (s : State) (e : StageExits)
    → valid_exits e ≡ true
    → e.count < e.max
    → valid_exits (exit_stage s e) ≡ true
unfolding valid_exits exit_stage is_stamped
exit_stage-valid s e v b = ground (arith, v)

-- The clock of a sound record that is not held.
pub sound_clock :
    (r : WorkLimit) (c : WorkClock)
    → r.clock ≡ some c
    → is_held r ≡ false
    → IsSound r
    → (valid_clock c ≡ true) × (c.hard_exits < c.max_hard_exits)
unfolding is_valid is_below valid_option
sound_clock r c e h s = (ground (arith, rw (h, e) at s), ground (arith, rw (h, e) at s))

sound_exits :
    (r : WorkLimit) (x : StageExits)
    → r.stage_exits ≡ some x
    → is_held r ≡ false
    → IsSound r
    → (valid_exits x ≡ true) × (x.count < x.max)
unfolding is_valid is_below valid_option
sound_exits r x e h s = (ground (arith, rw (h, e) at s), ground (arith, rw (h, e) at s))

-- Another clock in the place of the one there is.
pub with_clock-is_valid :
    (r : WorkLimit) (c c' : WorkClock)
    → r.clock ≡ some c
    → is_valid r ≡ true
    → valid_clock c' ≡ true
    → is_valid (record r { clock = some c' }) ≡ true
unfolding is_valid valid_option
with_clock-is_valid r c c' e v v' = ground (arith, rw e at v, v')

with_exits-is_valid :
    (r : WorkLimit) (x x' : StageExits)
    → r.stage_exits ≡ some x
    → is_valid r ≡ true
    → valid_exits x' ≡ true
    → is_valid (record r { stage_exits = some x' }) ≡ true
unfolding is_valid valid_option
with_exits-is_valid r x x' e v v' = ground (arith, rw e at v, v')

exit_clock-is_below :
    (now : Time) (r : WorkLimit) (c : WorkClock)
    → r.clock ≡ some c
    → is_held r ≡ false
    → IsSound r
    → leb c.max_hard_exits (suc c.hard_exits) ≡ false
    → is_below (record r { clock = some (exit_clock now c) }) ≡ true
unfolding is_below valid_option exit_clock
exit_clock-is_below now r c e h s below_max = ground (arith, rw (h, e) at s, below_max)

exit_stage-is_below :
    (saved : State) (r : WorkLimit) (x : StageExits)
    → r.stage_exits ≡ some x
    → is_held r ≡ false
    → IsSound r
    → leb x.max (exit_stage saved x).count ≡ false
    → is_below (record r { stage_exits = some (exit_stage saved x) }) ≡ true
unfolding is_below valid_option exit_stage
exit_stage-is_below saved r x e h s below_max = ground (arith, rw (h, e) at s, below_max)

pub IsSound-or : (r : WorkLimit) → is_valid r ≡ true → is_below r ≡ true → IsSound r
IsSound-or r v b = ground (arith, v, b)

count_exit-IsSound :
    (now : Time) (r : WorkLimit) (c : WorkClock)
    → 0 < now
    → r.clock ≡ some c
    → is_held r ≡ false
    → IsSound r
    → IsSound (count_exit now r c)
unfolding count_exit
count_exit-IsSound now r c t e h s =
    let (vc, below) = sound_clock r c e h s in
    let v' =
      with_clock-is_valid r c (exit_clock now c) e (ground (arith, s))
        (exit_clock-valid now c t vc below) in
    elim (Bool-cases (is_some c.active)) [
      | inr idle ↦ rw idle s
      | inl active ↦ elim (Bool-cases (leb c.max_hard_exits (suc c.hard_exits))) [
        | inl reached ↦
            rw (active, reached)
              (add_pause-IsSound hard_exit_pause now (record r { clock = some (exit_clock now c) })
                exits_known t v')
        | inr below_max ↦
            rw (active, below_max)
              (IsSound-or (record r { clock = some (exit_clock now c) }) v'
                (exit_clock-is_below now r c e h s below_max))
      ]
    ]

recover_exits-IsSound :
    (now : Time) (saved : State) (r : WorkLimit) (x : StageExits)
    → 0 < now
    → r.stage_exits ≡ some x
    → is_held r ≡ false
    → IsSound r
    → IsSound (recover_exits now saved r x)
unfolding recover_exits
recover_exits-IsSound now saved r x t e h s =
    let (vx, below) = sound_exits r x e h s in
    let v' =
      with_exits-is_valid r x (exit_stage saved x) e (ground (arith, s))
        (exit_stage-valid saved x vx below) in
    elim (Bool-cases (is_some x.active)) [
      | inr idle ↦ rw idle s
      | inl active ↦ elim (Bool-cases (leb x.max (exit_stage saved x).count)) [
        | inl reached ↦
            rw (active, reached)
              (add_pause-IsSound hard_exit_pause now
                (record r { stage_exits = some (exit_stage saved x) }) exits_known t v')
        | inr below_max ↦
            rw (active, below_max)
              (IsSound-or (record r { stage_exits = some (exit_stage saved x) }) v'
                (exit_stage-is_below saved r x e h s below_max))
      ]
    ]

no_notice-IsSound : (r : WorkLimit) → IsSound r → IsSound (record r { clock = no_notice r.clock })
unfolding is_valid is_below is_held valid_option valid_clock is_stamped no_notice
no_notice-IsSound r s = ground (arith, s)

recover_clock-IsSound :
    (now : Time) (r : WorkLimit) (c : WorkClock)
    → 0 < now
    → r.clock ≡ some c
    → is_held r ≡ false
    → IsSound r
    → IsSound (recover_clock now r c)
unfolding recover_clock
recover_clock-IsSound now r c t e h s =
    let counted = count_exit-IsSound now r c t e h s in
    elim (Bool-cases (spent c)) [
      | inr left ↦ rw left counted
      | inl over ↦ rw over (
          no_notice-IsSound (add_pause active_limit_pause now (count_exit now r c)) (
            add_pause-IsSound active_limit_pause now (count_exit now r c) limit_known t
              (ground (arith, counted))))
    ]

pub recover_work-IsSound :
    (now : Time) (saved : State) (r : WorkLimit)
    → 0 < now
    → IsSound r
    → IsSound (recover_work now saved r)
unfolding recover_work
recover_work-IsSound now saved r t s = elim (Bool-cases (is_held r)) [
  | inl h ↦ rw h s
  | inr h ↦ elim (Option-cases r.clock) [
    | inr (c, e) ↦ rw (h, e) (recover_clock-IsSound now r c t e h s)
    | inl e ↦ elim (Option-cases r.stage_exits) [
      | inl x ↦ rw (h, e, x) s
      | inr (x, ex) ↦ rw (h, e, ex) (recover_exits-IsSound now saved r x t ex h s)
    ]
  ]
]
