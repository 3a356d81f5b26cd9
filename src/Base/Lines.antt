-- ===== src/Base/Lines.antt =====
-- `strings.TrimSpace` and `strings.Split` at a line break. White space is that of `unicode.IsSpace`.
use Prim.Native.Nat.{ℕ}
use Prim.Native.Char.{Char, code}
use Prim.Native.String.{String}
use mathlib.Core.Bool.{Bool, true, false, ◌&&◌, ◌||◌}
use mathlib.Core.List.{List, [], ◌∷◌}
use lass_das.Base.Tests.{leb, if◌then◌else◌}

is_between : ℕ → ℕ → ℕ → Bool
is_between low high c = leb low c && leb c high

is_space : Char → Bool
unfolding is_between
is_space c =
    is_between 9 13 (code c)
    || (is_between 0x20 0x20 (code c)
        || (is_between 0x85 0x85 (code c)
            || (is_between 0xA0 0xA0 (code c)
                || (is_between 0x1680 0x1680 (code c)
                    || (is_between 0x2000 0x200A (code c)
                        || (is_between 0x2028 0x2029 (code c)
                            || (is_between 0x202F 0x202F (code c)
                                || (is_between 0x205F 0x205F (code c)
                                    || is_between 0x3000 0x3000 (code c)))))))))

trim_left : String → String
unfolding is_space
trim_left String.[] = String.[]
trim_left (String.◌∷◌ c s) = let rest = trim_left s in if is_space c then rest else String.◌∷◌ c s

is_end : String → Bool
is_end String.[] = true
is_end (String.◌∷◌ c s) = false

trim_right : String → String
unfolding is_space is_end
trim_right String.[] = String.[]
trim_right (String.◌∷◌ c s) =
    let rest = trim_right s in if is_space c && is_end rest then String.[] else String.◌∷◌ c rest

unfoldable pub trim_space : String → String
unfolding trim_left trim_right
trim_space s = trim_right (trim_left s)

add_first : Char → List String → List String
add_first c [] = String.◌∷◌ c String.[] ∷ []
add_first c (line ∷ lines) = String.◌∷◌ c line ∷ lines

-- `strings.Split(s, "\n")`.
unfoldable pub split_lines : String → List String
unfolding add_first
split_lines String.[] = String.[] ∷ []
split_lines (String.◌∷◌ c s) =
    let rest = split_lines s in
    if leb 10 (code c) && leb (code c) 10 then String.[] ∷ rest else add_first c rest
