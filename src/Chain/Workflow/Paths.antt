-- ===== src/Chain/Workflow/Paths.antt =====
-- The parts of Go's path/filepath that workflow.go uses, on a system whose separator is `/`.
use Prim.Native.Char.{Char, code}
use Prim.Native.String.{String}
use lass_das.Base.{
  ℕ, zero, suc, ◌==◌, Bool, true, false, not, ◌&&◌, ◌||◌, List, [], ◌∷◌, if◌then◌else◌, ltb,
  contains_text,
}

is_separator : Char → Bool
is_separator c = not (ltb (code c) b'/') && not (ltb b'/' (code c))

add_to_first : Char → List String → List String
add_to_first c [] = String.◌∷◌ c String.[] ∷ []
add_to_first c (part ∷ parts) = String.◌∷◌ c part ∷ parts

-- `strings.Split(path, "/")`.
unfoldable pub split_path : String → List String
unfolding is_separator add_to_first
split_path String.[] = "" ∷ []
split_path (String.◌∷◌ c s) =
    let rest = split_path s in if is_separator c then "" ∷ rest else add_to_first c rest

-- Whether the parts stay below the directory that they start from, `depth` directories deep.
stays_below : ℕ → List String → Bool
stays_below depth [] = true
stays_below depth (part ∷ parts) =
    if part == ".."
    then (elim depth [ zero ↦ false | suc d ↦ stays_below d parts ])
    else stays_below (if (part == "") || (part == ".") then depth else suc depth) parts

is_absolute : String → Bool
is_absolute String.[] = false
is_absolute (String.◌∷◌ c _) = is_separator c

-- `filepath.IsLocal`.
unfoldable pub is_local : String → Bool
unfolding stays_below split_path is_absolute is_separator
is_local path = not (path == "") && (not (is_absolute path) && stays_below 0 (split_path path))

-- `slices.Contains(strings.Split(path, "/"), "..")`.
unfoldable pub has_parent : String → Bool
unfolding split_path
has_parent path = contains_text ".." (split_path path)
