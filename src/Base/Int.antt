-- ===== src/Base/Int.antt =====
-- The integers of the configuration and the comment ids: `negsuc n` is -(n + 1). They are read
-- from files and compared; nothing is added to them, so they do not wrap.
use Prim.Native.Nat.{ℕ, suc, ◌≤◌}
use mathlib.Core.Path.{◌≡◌, refl, ap}
use mathlib.Core.Bool.{Bool, true, false, ◌&&◌}
use native.Mathlib.Omega.{arith}
use lass_das.Base.Tests.{leb, ltb}

pub data ℤ : Type 0 where
  pos : ℕ → ℤ
  negsuc : ℕ → ℤ

abbrev pub is_negative : ℤ → Bool
is_negative (pos n) = false
is_negative (negsuc n) = true

abbrev pub is_zero : ℤ → Bool
is_zero (pos n) = leb n 0
is_zero (negsuc n) = false

-- `z <= 0`.
abbrev pub non_positive : ℤ → Bool
non_positive (pos n) = leb n 0
non_positive (negsuc n) = true

-- `count >= z` and `count < z` at a count, which is not negative.
abbrev pub reaches : ℕ → ℤ → Bool
reaches n (pos m) = leb m n
reaches n (negsuc m) = true

abbrev pub below : ℕ → ℤ → Bool
below n (pos m) = ltb n m
below n (negsuc m) = false

abbrev pub max_int : ℤ → ℤ → ℤ
max_int (pos a) (pos b) = pos (Prim.Native.Nat.max a b)
max_int (pos a) (negsuc b) = pos a
max_int (negsuc a) (pos b) = pos b
max_int (negsuc a) (negsuc b) = negsuc (Prim.Native.Nat.min a b)

-- `==` and `<` of two integers.
abbrev pub same_int : ℤ → ℤ → Bool
same_int (pos a) (pos b) = leb a b && leb b a
same_int (pos a) (negsuc b) = false
same_int (negsuc a) (pos b) = false
same_int (negsuc a) (negsuc b) = leb a b && leb b a

abbrev pub less_int : ℤ → ℤ → Bool
less_int (pos a) (pos b) = ltb a b
less_int (pos a) (negsuc b) = false
less_int (negsuc a) (pos b) = true
less_int (negsuc a) (negsuc b) = ltb b a

pub same_int_refl : (a : ℤ) → same_int a a ≡ true
same_int_refl (pos a) = ground arith
same_int_refl (negsuc a) = ground arith

same_nat : (a b : ℕ) → (leb a b && leb b a) ≡ true → a ≡ b
same_nat a b h = ground arith

pub same_int→≡ : (a b : ℤ) → same_int a b ≡ true → a ≡ b
same_int→≡ (pos a) (pos b) h = ap pos (same_nat a b h)
same_int→≡ (pos a) (negsuc b) h = cc
same_int→≡ (negsuc a) (pos b) h = cc
same_int→≡ (negsuc a) (negsuc b) h = ap negsuc (same_nat a b h)

pub less_int_trans : (a b c : ℤ) → less_int a b ≡ true → less_int b c ≡ true → less_int a c ≡ true
less_int_trans (pos a) (pos b) (pos c) h k = ground (arith, h, k)
less_int_trans (pos a) (pos b) (negsuc c) h k = k
less_int_trans (pos a) (negsuc b) c h k = cc
less_int_trans (negsuc a) (pos b) (pos c) h k = refl
less_int_trans (negsuc a) (pos b) (negsuc c) h k = cc
less_int_trans (negsuc a) (negsuc b) (pos c) h k = refl
less_int_trans (negsuc a) (negsuc b) (negsuc c) h k = ground (arith, h, k)

pub not_less_trans :
    (a b c : ℤ) → less_int a b ≡ false → less_int b c ≡ false → less_int a c ≡ false
not_less_trans (pos a) (pos b) (pos c) h k = ground (arith, h, k)
not_less_trans (pos a) (pos b) (negsuc c) h k = refl
not_less_trans (pos a) (negsuc b) (pos c) h k = cc
not_less_trans (pos a) (negsuc b) (negsuc c) h k = refl
not_less_trans (negsuc a) (pos b) c h k = cc
not_less_trans (negsuc a) (negsuc b) (pos c) h k = cc
not_less_trans (negsuc a) (negsuc b) (negsuc c) h k = ground (arith, h, k)

pub less_asym : (a b : ℤ) → less_int a b ≡ true → less_int b a ≡ false
less_asym (pos a) (pos b) h = ground (arith, h)
less_asym (pos a) (negsuc b) h = cc
less_asym (negsuc a) (pos b) h = refl
less_asym (negsuc a) (negsuc b) h = ground (arith, h)

pub less_irrefl : (a : ℤ) → less_int a a ≡ false
less_irrefl (pos a) = ground arith
less_irrefl (negsuc a) = ground arith

pub positive_above :
    (a b : ℤ) → less_int a (pos 0) ≡ false → less_int a b ≡ true → less_int (pos 0) b ≡ true
positive_above (pos a) (pos b) h k = ground (arith, h, k)
positive_above (pos a) (negsuc b) h k = cc
positive_above (negsuc a) b h k = cc

pub zero_not_positive : (a : ℤ) → less_int (pos 0) a ≡ true → is_zero a ≡ false
zero_not_positive (pos a) h = ground (arith, h)
zero_not_positive (negsuc a) h = refl
