-- ===== src/Engine/Turns/Delays.antt =====
-- rewrite/cmd/engine/turns.go, retryDelay, refuse and due: when a turn is asked again.
use Prim.Native.Nat.{◌^◌, min}
use native.Mathlib.Nat.{mul_assoc, two-pow-succ, le-mul_of_pos_right}
use lass_das.Base.{
  ℕ, zero, suc, ◌+◌, ◌*◌, ◌≤◌, String, ◌==◌, false, ◌≡◌, refl, ap, ◌∙◌, if◌then◌else◌, leb, ltb,
  lookup, lookup_or, arith, Bool-cases, two_pow_pos, inl, inr,
}
use lass_das.Chain.Types.{Time}
use lass_das.Engine.WorkLimit.{minute}
use lass_das.Engine.Turns.{TurnRecord, hour, double_delay, retry_delay, refuse, has_come, due}

doubled : (n : ℕ) → 2 * 2 ^ n ≡ 2 ^ suc n
doubled n = omega (arith, two-pow-succ n)

not_short : (d : ℕ) → ltb d hour ≡ false → hour ≤ d
not_short d e = ground (arith, e)

double_delay-min : (n delay : ℕ) → min (double_delay n delay) hour ≡ min (delay * 2 ^ n) hour
unfolding double_delay
double_delay-min zero delay = ground arith
double_delay-min (suc n) delay = elim (Bool-cases (ltb delay hour)) [
  | inl short ↦ rw short (
      double_delay-min n (delay * 2)
      ∙ ap (λ d. min d hour) (mul_assoc delay 2 (2 ^ n) ∙ ap (λ p. delay * p) (doubled n)))
  | inr long ↦
      rw long (omega (arith, not_short delay long, le-mul_of_pos_right delay (two_pow_pos (suc n))))
]

retry_delay-min : (n : ℕ) → retry_delay (suc n) ≡ min (minute * 2 ^ n) hour
unfolding retry_delay
retry_delay-min n = ground (arith, double_delay-min n minute)

-- Behind a refusal: the turn is due when a minute has passed, doubled for each refusal before, an hour at most;
-- every other turn is due as before.
pub refuse-due :
    (turn reason k : String) (now t : Time) (r : TurnRecord)
    → due k t (refuse turn reason now r).0 ≡ (
        if turn == k
        then leb (now + min (minute * 2 ^ lookup_or 0 turn r.refused) hour) t
        else due k t r)
unfolding due has_come refuse lookup
refuse-due turn reason k now t r = elim (Bool-cases (turn == k)) [
  | inl same ↦ rw same (ground (arith, retry_delay-min (lookup_or 0 turn r.refused)))
  | inr other ↦ rw other refl
]
