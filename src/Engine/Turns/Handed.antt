-- ===== src/Engine/Turns/Handed.antt =====
-- rewrite/cmd/engine/turns.go: which calls of the turns are accepted, one turn after another.
use lass_das.Base.{
  ◌-◌, String, ◌==◌, Bool, true, false, not, ◌&&◌, ◌||◌, List, [], ◌∷◌, ◌≡◌, refl, if◌then◌else◌,
  leb, ltb, All, arith, Bool-cases, inl, inr,
}
use lass_das.Chain.Types.{Time}
use lass_das.Engine.Comments.{is_positive}
use lass_das.Engine.Pause.{stored}
use lass_das.Engine.Turns.{
  TurnSite, TurnConfig, Asking, Turned, accepts, assigns, records_hours, rounded_minutes, due,
  assign_turn, accept_turn, hours_turn, take_turn, take_turns,
}
use lass_das.Engine.Turns.Recorded.{
  IsRecorded, IsStored, assigned-IsRecorded, moved-IsRecorded, recorded-IsRecorded,
}

-- A test in front of a turn.
if-IsRecorded :
    (b : Bool) (site other : TurnSite)
    → IsRecorded site
    → (b ≡ false → IsRecorded other)
    → IsRecorded (if b then site else other)
if-IsRecorded true site other h f = h
if-IsRecorded false site other h f = f refl

or_right : (a b : Bool) → (a || b) ≡ false → b ≡ false
or_right a b e = ground (arith, e)

assign_turn-IsRecorded :
    (cfg : TurnConfig) (who : String) (a : Asking) (site : TurnSite)
    → a.write ≡ stored
    → IsRecorded site
    → IsRecorded (assign_turn cfg who a site)
unfolding assign_turn
assign_turn-IsRecorded cfg who a site w h =
    if-IsRecorded (not cfg.assign || (site.turns.assignee == who)) site _ h (λ other.
      if-IsRecorded
        (not (is_positive (if who == "requester" then cfg.creator else cfg.runtime_user))) site _ h
        (λ user. if-IsRecorded (not (due "assignee" a.now site.turns)) site _ h (λ now.
          assigned-IsRecorded who a site w
            (or_right (not cfg.assign) (site.turns.assignee == who) other) h)))

accept_turn-IsRecorded :
    (cfg : TurnConfig) (a b : Asking) (site : TurnSite)
    → a.write ≡ stored
    → b.write ≡ stored
    → IsRecorded site
    → IsRecorded (accept_turn cfg a b site)
unfolding accept_turn
accept_turn-IsRecorded cfg a b site w v h =
    elim (Bool-cases (cfg.has_target && not site.turns.category)) [
      | inr done ↦ rw done (assign_turn-IsRecorded cfg "runtime" b site v h)
      | inl new ↦ rw new (
          if-IsRecorded (not (due "category" a.now site.turns)) site _ h (λ now.
            assign_turn-IsRecorded cfg "runtime" b _ v
              (moved-IsRecorded a site w (ground (arith, new)) h)))
    ]

hours_turn-IsRecorded :
    (cfg : TurnConfig) (accepted finished : Time) (a : Asking) (site : TurnSite)
    → a.write ≡ stored
    → IsRecorded site
    → IsRecorded (hours_turn cfg accepted finished a site)
unfolding hours_turn
hours_turn-IsRecorded cfg accepted finished a site w h =
    if-IsRecorded (not cfg.assign || (leb accepted 0 || (leb finished 0 || ltb finished accepted)))
      site _ h
      (λ timed. if-IsRecorded site.turns.hours site _ h (λ new.
        if-IsRecorded (not (due "hours" a.now site.turns)) site _ h
          (λ now. recorded-IsRecorded (rounded_minutes (finished - accepted)) a site w new h)))

take_turn-IsRecorded :
    (cfg : TurnConfig) (t : Turned) (site : TurnSite)
    → IsStored t
    → IsRecorded site
    → IsRecorded (take_turn cfg t site)
unfolding take_turn
take_turn-IsRecorded cfg (accepts a b) site w h = accept_turn-IsRecorded cfg a b site w.0 w.1 h
take_turn-IsRecorded cfg (assigns who a) site w h = assign_turn-IsRecorded cfg who a site w h
take_turn-IsRecorded cfg (records_hours accepted finished a) site w h =
    hours_turn-IsRecorded cfg accepted finished a site w h

-- Where the record of the turns is written each time: however often the turns are taken, and whatever the tracker
-- refuses, it accepts the move of an issue and its hours once at most, and no hand-over to whom the one before was;
-- the record says what it accepted.
pub take_turns-IsRecorded :
    (cfg : TurnConfig) (turns : List Turned) (site : TurnSite)
    → All IsStored turns
    → IsRecorded site
    → IsRecorded (take_turns cfg turns site)
unfolding take_turns
take_turns-IsRecorded cfg [] site w h = h
take_turns-IsRecorded cfg (t ∷ turns) site w h =
    take_turns-IsRecorded cfg turns (take_turn cfg t site) w.1
      (take_turn-IsRecorded cfg t site w.0 h)
