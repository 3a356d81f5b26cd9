-- ===== src/Chain/Run/Monad.antt =====
-- chain.go, Run: what the loop calls, what it leaves behind, and the calls that may be repeated.
use lass_das.Base.{ℕ, zero, suc, String, Bool, Option, none, some, List, ◌∷◌, if◌then◌else◌, ℤ}
use lass_das.Chain.Types.{Result, Assignment, Workflow, State, Time}
use lass_das.Chain.Routers.{Routed, RouteError}

pub record QuestionObservation : Type 0 where
  pub posted : Bool
  pub last_comment : ℤ

-- What the gate before an approval stage returns: nothing, a refusal, one of the two holds, or
-- another error.
pub data Gate : Type 0 where
  passed : Gate
  refused : String → Gate
  awaiting paused gate_error : Gate

-- The configured chain and what it calls, each answer by the tick at which it is asked for. An
-- option of a function is a function that may be nil; `none` of a call is its error. The router, the
-- executor and the store are there. `error_text` stands for the text of an error of routing.
pub record Chain : Type 0 where
  pub workflow : Option Workflow
  pub wait_after : String
  pub question_no_post_limit : ℤ
  pub attempt_limit : ℤ
  pub now : ℕ → Time
  pub ended : ℕ → Bool
  pub load : ℕ → Option State
  pub saves : ℕ → Bool
  pub next : ℕ → State → Routed
  pub execute : ℕ → Assignment → State → List Result
  pub question_posted : Option (ℕ → Option QuestionObservation)
  pub requester_reply : Option (ℕ → ℤ → Option String)
  pub activity : Option (ℕ → String → String)
  pub before_approval : Option (ℕ → State → Assignment → State × Gate)
  pub preview_up : Option (ℕ → String → State → String × String)
  pub error_text : RouteError → String

-- How `Run` returns. `out_of_fuel` is the model's own: the source goes on.
pub data Stop : Type 0 where
  finished approval_paused awaiting_approval waiting environment_paused attempt_limit_reached : Stop
  cancelled refused_workflow no_gate gate_failed : Stop
  out_of_fuel : Stop

-- What a run leaves behind, the latest first: the states that reached the store and the launches.
pub data Event : Type 0 where
  saved : State → Event
  launched : Assignment → State → Event

pub record World : Type 0 where
  pub tick : ℕ
  pub trace : List Event

pub data Outcome (A : Type 0) : Type 0 where
  go_on : A → Outcome A
  halt : Stop → Outcome A

abbrev pub M : Type 0 → Type 0
M A = World → Outcome A × World

abbrev pub bind_outcome : {A B : Type 0} → Outcome A × World → (A → M B) → Outcome B × World
bind_outcome (go_on a, w) f = f a w
bind_outcome (halt s, w) f = (halt s, w)

unfoldable pub ret : {A : Type 0} → A → M A
ret a w = (go_on a, w)

unfoldable pub stop : {A : Type 0} → Stop → M A
stop s w = (halt s, w)

-- A call of something that changes with time.
unfoldable pub ask : {A : Type 0} → (ℕ → A) → M A
ask f w = (go_on (f w.tick), record w { tick = suc w.tick })

unfoldable pub note : Event → M (Unit {0})
note e w = (go_on tt, record w { trace = e ∷ w.trace })

-- Opening this opens `ret`, `stop`, `ask` and `note` too.
infixl 5 ◌>>=◌ ◌>>◌
unfoldable pub ◌>>=◌ : {A B : Type 0} → M A → (A → M B) → M B
unfolding ret stop ask note
◌>>=◌ m f w = bind_outcome (m w) f

abbrev pub ◌>>◌ : {B : Type 0} → M (Unit {0}) → M B → M B
m >> k = m >>= λ _. k

-- A nil function, or the error of a call, beside the value.
abbrev pub maybe : {A B : Type 0} → Option A → M B → (A → M B) → M B
maybe none m f = m
maybe (some a) m f = f a

-- `ctx.Err()`, and `wait`, which returns the error of a context that ended meanwhile.
unfoldable pub check_ended : Chain → M (Unit {0})
unfolding ◌>>=◌
check_ended c = do over ← ask c.ended; if over then stop cancelled else ret tt

unfoldable pub wait : Chain → M (Unit {0})
unfolding check_ended
wait c = check_ended c

-- `save`: one more attempt after each failed one, while the context lasts.
unfoldable pub save : Chain → ℕ → State → M (Unit {0})
unfolding check_ended wait
save c zero s = stop out_of_fuel
save c (suc fuel) s =
    let again = save c fuel s in
    do check_ended c; ok ← ask c.saves; if ok then note (saved s) else (wait c >> again)

-- The loop that loads the state.
unfoldable pub load_state : Chain → ℕ → M State
unfolding wait
load_state c zero = stop out_of_fuel
load_state c (suc fuel) =
    let again = load_state c fuel in do loaded ← ask c.load; maybe loaded (wait c >> again) ret
