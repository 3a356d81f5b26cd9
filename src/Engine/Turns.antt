-- ===== src/Engine/Turns.antt =====
-- rewrite/cmd/engine/turns.go: what the engine has done at the tracker for a request, its turns, and when a turn that
-- was refused is asked again. The tracker's answer to a call is an argument, an error by its text; what the engine
-- says of it in its log is left out.
pub mod Delays
pub mod Recorded
pub mod Handed
use Prim.Native.Nat.{◌/◌}
use lass_das.Base.{
  ℕ, zero, suc, ◌+◌, ◌-◌, ◌*◌, String, ◌==◌, Bool, true, false, not, ◌&&◌, ◌||◌, Option, none, some,
  List, [], ◌∷◌, if◌then◌else◌, leb, ltb, ℤ, lookup, lookup_or,
}
use lass_das.Chain.Types.{Time}
use lass_das.Engine.WorkLimit.{minute}
use lass_das.Engine.Comments.{is_positive}
use lass_das.Engine.Pause.{Write, stored, written, lost}

pub record TurnRecord : Type 0 where
  pub category : Bool
  pub assignee : String
  pub hours : Bool
  pub refused : List (String × ℕ)
  pub reasons : List (String × String)
  pub next : List (String × Time)

abbrev pub hour : ℕ
hour = 3600000000000

-- The loop of retryDelay, over the rounds that are left.
unfoldable pub double_delay : ℕ → ℕ → ℕ
double_delay zero delay = delay
double_delay (suc n) delay =
    let rest = double_delay n (delay * 2) in if ltb delay hour then rest else delay

-- `retryDelay`.
unfoldable pub retry_delay : ℕ → ℕ
unfolding double_delay
retry_delay refused =
    let delay = double_delay (refused - 1) minute in if ltb hour delay then hour else delay

-- `refuse`, and whether the reason is new.
unfoldable pub refuse : String → String → Time → TurnRecord → TurnRecord × Bool
unfolding retry_delay
refuse turn reason now r =
    let count = suc (lookup_or 0 turn r.refused) in
    (
      record r {
        refused = (turn, count) ∷ r.refused;
        reasons = (turn, reason) ∷ r.reasons;
        next = (turn, now + retry_delay count) ∷ r.next;
      },
      not (lookup_or "" turn r.reasons == reason),
    )

unfoldable pub has_come : Time → Option Time → Bool
has_come now none = true
has_come now (some next) = not (ltb now next)

-- `due`.
unfoldable pub due : String → Time → TurnRecord → Bool
unfolding has_come
due turn now r = has_come now (lookup turn r.next)

-- A call of the tracker: Move, Assign, and RecordHours with its minutes.
pub data TurnCall : Type 0 where
  moved : TurnCall
  assigned : String → TurnCall
  recorded : ℕ → TurnCall

-- The file of the turns, and the calls, the latest first, with whether the tracker accepted them.
pub record TurnSite : Type 0 where
  pub turns : TurnRecord
  pub asked : List (TurnCall × Bool)

-- What one turn meets.
pub record Asking : Type 0 where
  pub now : Time
  pub refusal : Option String
  pub write : Write

-- `saveTurns`.
unfoldable pub save_turns : Write → TurnRecord → TurnSite → TurnSite
save_turns stored r site = record site { turns = r }
save_turns written r site = record site { turns = r }
save_turns lost r site = site

-- A turn that is asked: what is saved behind a refusal, and where it was accepted.
unfoldable pub settle_turn : String → TurnCall → TurnRecord → Asking → TurnSite → TurnSite
unfolding save_turns refuse
settle_turn turn call accepted a site = elim a.refusal [
  | none ↦ save_turns a.write accepted (record site { asked = (call, true) ∷ site.asked })
  | some reason ↦
      save_turns a.write (refuse turn reason a.now site.turns).0
        (record site { asked = (call, false) ∷ site.asked })
]

-- `runtime_user` and `creator` are accounts, 0 where there is none.
pub record TurnConfig : Type 0 where
  pub assign : Bool
  pub has_target : Bool
  pub runtime_user : ℤ
  pub creator : ℤ

-- `assignTurn`.
unfoldable pub assign_turn : TurnConfig → String → Asking → TurnSite → TurnSite
unfolding is_positive due settle_turn
assign_turn cfg who a site =
    if not cfg.assign || (site.turns.assignee == who)
    then site
    else if not (is_positive (if who == "requester" then cfg.creator else cfg.runtime_user))
    then site
    else if not (due "assignee" a.now site.turns)
    then site
    else settle_turn "assignee" (assigned who) (record site.turns { assignee = who }) a site

-- `acceptTurn`, behind its comment.
unfoldable pub accept_turn : TurnConfig → Asking → Asking → TurnSite → TurnSite
unfolding due settle_turn assign_turn
accept_turn cfg a b site =
    if not (cfg.has_target && not site.turns.category)
    then assign_turn cfg "runtime" b site
    else if not (due "category" a.now site.turns)
    then site
    else assign_turn cfg "runtime" b
        (settle_turn "category" moved (record site.turns { category = true }) a site)

-- `d.Round(time.Minute)`, in minutes.
unfoldable pub rounded_minutes : ℕ → ℕ
rounded_minutes d = (d + 30000000000) / minute

-- `hoursTurn`.
unfoldable pub hours_turn : TurnConfig → Time → Time → Asking → TurnSite → TurnSite
unfolding due settle_turn rounded_minutes
hours_turn cfg accepted finished a site =
    if not cfg.assign || (leb accepted 0 || (leb finished 0 || ltb finished accepted))
    then site
    else if site.turns.hours
    then site
    else if not (due "hours" a.now site.turns)
    then site
    else settle_turn "hours" (recorded (rounded_minutes (finished - accepted)))
        (record site.turns { hours = true }) a site

-- One turn, whichever.
pub data Turned : Type 0 where
  accepts : Asking → Asking → Turned
  assigns : String → Asking → Turned
  records_hours : Time → Time → Asking → Turned

unfoldable pub take_turn : TurnConfig → Turned → TurnSite → TurnSite
unfolding accept_turn assign_turn hours_turn
take_turn cfg (accepts a b) site = accept_turn cfg a b site
take_turn cfg (assigns who a) site = assign_turn cfg who a site
take_turn cfg (records_hours accepted finished a) site = hours_turn cfg accepted finished a site

unfoldable pub take_turns : TurnConfig → List Turned → TurnSite → TurnSite
unfolding take_turn
take_turns cfg [] site = site
take_turns cfg (t ∷ turns) site = take_turns cfg turns (take_turn cfg t site)
