-- ===== src/Chain/Run/Rules.antt =====
-- Invariants of the run, one rule for each way to build an action.
use lass_das.Base.{Bool, true, false, Option, none, some, if◌then◌else◌}
use lass_das.Chain.Run.Monad.{
  Stop, World, Outcome, go_on, halt, M, bind_outcome, ret, stop, maybe, ◌>>=◌,
}
use lass_das.Chain.Run.Phases.{Flow, again, on, flow_case}

-- The world keeps `P`, and an action that halts does so for a reason in `H`.
abbrev pub Good : (World → Type 0) → (Stop → Type 0) → {A : Type 0} → Outcome A × World → Type 0
Good P H (go_on a, w) = P w
Good P H (halt s, w) = P w × H s

pub record Keeps (P : World → Type 0) (H : Stop → Type 0) {A : Type 0} (m : M A) : Type 0 where
  pub at : (w : World) → P w → Good P H (m w)

module _ {P : World → Type 0} {H : Stop → Type 0} where
  pub Keeps-ret : {A : Type 0} (a : A) → Keeps P H (ret a)
  unfolding ret
  Keeps-ret a = record { at = λ w h. h }

  pub Keeps-stop : {A : Type 0} (s : Stop) → H s → Keeps P H (stop {A = A} s)
  unfolding stop
  Keeps-stop s k = record { at = λ w h. (h, k) }

  pub Keeps-if :
      {A : Type 0} (b : Bool) (m n : M A)
      → Keeps P H m
      → Keeps P H n
      → Keeps P H (if b then m else n)
  Keeps-if true m n km kn = km
  Keeps-if false m n km kn = kn

  pub Keeps-maybe :
      {A B : Type 0} (o : Option A) (m : M B) (f : A → M B)
      → Keeps P H m
      → ((a : A) → Keeps P H (f a))
      → Keeps P H (maybe o m f)
  Keeps-maybe none m f km kf = km
  Keeps-maybe (some a) m f km kf = kf a

  pub Keeps-flow :
      {A B : Type 0} (flow : Flow A) (f : A → M (Flow B))
      → ((a : A) → Keeps P H (f a))
      → Keeps P H (flow_case flow f)
  Keeps-flow (again l) f kf = Keeps-ret (again l)
  Keeps-flow (on a) f kf = kf a

  bind-Good :
      {A B : Type 0} (r : Outcome A × World) (f : A → M B)
      → ((a : A) → Keeps P H (f a))
      → Good P H r
      → Good P H (bind_outcome r f)
  bind-Good (go_on a, w) f kf h = (kf a).at w h
  bind-Good (halt s, w) f kf h = h

  pub Keeps-bind :
      {A B : Type 0} (m : M A) (f : A → M B)
      → Keeps P H m
      → ((a : A) → Keeps P H (f a))
      → Keeps P H (m >>= f)
  unfolding ◌>>=◌
  Keeps-bind m f km kf = record { at = λ w h. bind-Good (m w) f kf (km.at w h) }

pub ruleset keeps_rules = (Keeps-ret, Keeps-stop, Keeps-if, Keeps-maybe, Keeps-flow, Keeps-bind)
