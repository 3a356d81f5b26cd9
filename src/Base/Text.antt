-- ===== src/Base/Text.antt =====
-- Texts: equality as one shut test, `strings.Contains` and the decimal form of `%d`.
use Prim.Native.Nat.{ℕ, zero, suc, ◌/◌, ◌%◌}
use Prim.Native.Char.{Char}
use Prim.Native.String.{String, ◌++◌}
use mathlib.Core.Path.{◌≡◌, refl}
use mathlib.Core.Logic.{◌↔◌}
use mathlib.Core.Bool.{Bool, true, ◌||◌}
use native.Mathlib.Omega.{arith}
use text.Mathlib.Text.{◌==◌ as str_eq, starts_with}
use text.Mathlib.TextEquality.{eq_iff, starts_with_iff}
use text.Mathlib.TextLemmas.{prefix-append, nil-append, cons-append}
use lass_das.Base.Tests.{ltb, if◌then◌else◌}

-- `+` of texts.
infixr 60 ◌<>◌
abbrev pub ◌<>◌ : String → String → String
s <> t = s ++ t

infix 50 ◌==◌
unfoldable pub ◌==◌ : String → String → Bool
s == t = str_eq s t

pub ==_iff : (s t : String) → ((s == t) ≡ true) ↔ (s ≡ t)
unfolding ◌==◌
==_iff s t = eq_iff s t

pub ==→≡ : (s t : String) → (s == t) ≡ true → s ≡ t
==→≡ s t h = (==_iff s t).0 h

pub ≡→== : (s t : String) → s ≡ t → (s == t) ≡ true
≡→== s t h = (==_iff s t).1 h

pub ==_refl : (s : String) → (s == s) ≡ true
==_refl s = ≡→== s s refl

pub ruleset texts = (arith, ==→≡, ≡→==, ==_refl)

-- `strings.Contains`.
unfoldable pub contains : String → String → Bool
contains String.[] t = starts_with String.[] t
contains (String.◌∷◌ c s) t = starts_with (String.◌∷◌ c s) t || contains s t

starts-contains : (s t : String) → starts_with s t ≡ true → contains s t ≡ true
unfolding contains
starts-contains String.[] t h = h
starts-contains (String.◌∷◌ c s) t h = ground (arith, h)

contains-cons : (c : Char) (s t : String) → contains s t ≡ true → contains (String.◌∷◌ c s) t ≡ true
unfolding contains
contains-cons c s t h = ground (arith, h)

pub contains-append : (a t b : String) → contains (a ++ (t ++ b)) t ≡ true
contains-append String.[] t b =
    rw (nil-append (t ++ b))
      (starts-contains (t ++ b) t ((starts_with_iff _ _).1 (prefix-append t b)))
contains-append (String.◌∷◌ c a) t b =
    rw (cons-append c a (t ++ b)) (contains-cons c (a ++ (t ++ b)) t (contains-append a t b))

abbrev digit : ℕ → String
digit zero = "0"
digit (suc zero) = "1"
digit (suc (suc zero)) = "2"
digit (suc (suc (suc zero))) = "3"
digit (suc (suc (suc (suc zero)))) = "4"
digit (suc (suc (suc (suc (suc zero))))) = "5"
digit (suc (suc (suc (suc (suc (suc zero)))))) = "6"
digit (suc (suc (suc (suc (suc (suc (suc zero))))))) = "7"
digit (suc (suc (suc (suc (suc (suc (suc (suc zero)))))))) = "8"
digit (suc (suc (suc (suc (suc (suc (suc (suc (suc _))))))))) = "9"

decimal_from : ℕ → ℕ → String
decimal_from zero n = digit n
decimal_from (suc fuel) n =
    let rest = decimal_from fuel (n / 10) in if ltb n 10 then digit n else rest ++ digit (n % 10)

-- `%d` of a number that is not negative. A number has fewer digits than its value and one.
unfoldable pub decimal : ℕ → String
unfolding decimal_from
decimal n = decimal_from n n
