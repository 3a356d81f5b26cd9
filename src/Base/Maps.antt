-- ===== src/Base/Maps.antt =====
-- Go maps as lists of pairs: the first entry for a key counts.
use Prim.Native.String.{String}
use mathlib.Core.Bool.{Bool, true, false}
use mathlib.Core.Option.{Option, none, some}
use mathlib.Core.List.{List, [], ◌∷◌}
use lass_das.Base.Tests.{if◌then◌else◌}
use lass_das.Base.Text.{◌==◌}

module _ {ℓ} {V : Type ℓ} where
  unfoldable pub lookup : String → List (String × V) → Option V
  lookup k [] = none
  lookup k ((j, v) ∷ m) = if j == k then some v else lookup k m

  unfoldable pub has_key : String → List (String × V) → Bool
  has_key k [] = false
  has_key k ((j, v) ∷ m) = if j == k then true else has_key k m

  -- `m[k]`, with the zero value where the key is missing.
  unfoldable pub lookup_or : V → String → List (String × V) → V
  lookup_or zero_value k [] = zero_value
  lookup_or zero_value k ((j, v) ∷ m) = if j == k then v else lookup_or zero_value k m

unfoldable pub contains_text : String → List String → Bool
contains_text k [] = false
contains_text k (j ∷ l) = if j == k then true else contains_text k l
