-- ===== src/Tracker/Numbers.antt =====
-- strconv and strings, as rewrite/internal/tracker/scope.go uses them: decimal int64 values and prefixes.
use Prim.Native.Nat.{◌^◌}
use Prim.Native.Char.{Char, code}
use lass_das.Base.{
  ◌<>◌, ℕ, zero, suc, ◌+◌, ◌-◌, ◌*◌, String, decimal, Bool, ◌&&◌, Option, none, some, if◌then◌else◌,
  leb, ltb, ℤ, pos, negsuc,
}

is_digit : Char → Bool
is_digit c = leb 48 (code c) && leb (code c) 57

parse_digits : ℕ → String → Option ℕ
unfolding is_digit
parse_digits n String.[] = some n
parse_digits n (String.◌∷◌ c s) =
    let rest = parse_digits (n * 10 + (code c - 48)) s in if is_digit c then rest else none

-- At least one digit.
parse_unsigned : String → Option ℕ
unfolding parse_digits
parse_unsigned String.[] = none
parse_unsigned (String.◌∷◌ c s) = parse_digits 0 (String.◌∷◌ c s)

positive_int : Option ℕ → Option ℤ
positive_int none = none
positive_int (some n) = if ltb n (2 ^ 63) then some (pos n) else none

negative_int : Option ℕ → Option ℤ
negative_int none = none
negative_int (some zero) = some (pos 0)
negative_int (some (suc n)) = if ltb n (2 ^ 63) then some (negsuc n) else none

-- `strconv.ParseInt(s, 10, 64)`.
unfoldable pub parse_int : String → Option ℤ
unfolding parse_unsigned positive_int negative_int
parse_int String.[] = none
parse_int (String.◌∷◌ c s) =
    if leb 43 (code c) && leb (code c) 43
    then positive_int (parse_unsigned s)
    else if leb 45 (code c) && leb (code c) 45
    then negative_int (parse_unsigned s)
    else positive_int (parse_unsigned (String.◌∷◌ c s))

-- `strconv.FormatInt(n, 10)`.
unfoldable pub format_int : ℤ → String
format_int (pos n) = decimal n
format_int (negsuc n) = "-" <> decimal (suc n)

-- `strings.HasPrefix` and `strings.TrimPrefix` in one: what follows the prefix.
unfoldable pub after_prefix : String → String → Option String
after_prefix String.[] s = some s
after_prefix (String.◌∷◌ c p) String.[] = none
after_prefix (String.◌∷◌ c p) (String.◌∷◌ d s) =
    let rest = after_prefix p s in
    if leb (code c) (code d) && leb (code d) (code c) then rest else none
