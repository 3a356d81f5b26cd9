-- ===== src/Tracker/Limits/Waits.antt =====
-- rewrite/internal/tracker/github_limits.go, learn and closedUntil: how long GitHub is left alone.
use Prim.Native.Nat.{min}
use lass_das.Base.{
  ℕ, suc, ◌+◌, ◌-◌, ◌≤◌, ◌<◌, true, Option, none, some, ◌≡◌, max, ℤ, pos, negsuc, trim_space, arith,
  Bool-cases, inl, inr, two_pow_pos,
}
use lass_das.Chain.Types.{Time}
use lass_das.Tracker.Numbers.{parse_int}
use lass_das.Tracker.Limits.{
  Shared, Answer, longest_wait, closed_until, is_limited, retry_until, reset_until, strike_wait,
  limit_until, learn_limited, forgive, learn,
}

retry_until-le : (o : Option ℤ) (now : Time) → retry_until o now ≤ now + longest_wait
unfolding retry_until
retry_until-le none now = omega arith
retry_until-le (some (negsuc n)) now = omega arith
retry_until-le (some (pos n)) now = ground arith

strike_wait_pos : (strikes : ℕ) → 0 < strike_wait strikes
unfolding strike_wait
strike_wait_pos strikes = grind (arith, two_pow_pos (min (strikes - 1) 6))

limit_until_bounds :
    (until now : Time) (strikes : ℕ)
    → (now < limit_until until now strikes) × (limit_until until now strikes ≤ now + longest_wait)
unfolding limit_until
limit_until_bounds until now strikes = ground (arith, strike_wait_pos (suc strikes))

forgive_quiet : (a : Answer) (s : Shared) → (forgive a s).quiet ≡ s.quiet
unfolding forgive
forgive_quiet a s = ground arith

-- Behind any answer: GitHub is left alone for no shorter than before, and for an hour at most where it was
-- not left alone longer; and where the answer says that a limit was met, it is not asked at once.
pub learn-quiet :
    (a : Answer) (now : Time) (s : Shared)
    → (s.quiet ≤ (learn a now s).quiet)
      × ((learn a now s).quiet ≤ max s.quiet (now + longest_wait))
      × (is_limited a ≡ true → now < closed_until now (learn a now s))
unfolding learn learn_limited closed_until
learn-quiet a now s = elim (Bool-cases (is_limited a)) [
  | inl limited ↦
      let until = reset_until a (retry_until (parse_int (trim_space a.retry_after)) now) in
      rw (limited)
        (ground (arith, limit_until_bounds until now (forgive a s).strikes, forgive_quiet a s))
  | inr unlimited ↦
      rw unlimited (
        ground
          (arith, retry_until-le (parse_int (trim_space a.retry_after)) now, forgive_quiet a s))
]
