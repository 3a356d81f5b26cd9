-- ===== src/Engine/Turns/Recorded.antt =====
-- rewrite/cmd/engine/turns.go: what the record of the turns says of the calls that were accepted.
use lass_das.Base.{
  ℕ, suc, String, ◌==◌, Bool, true, false, Option, none, some, List, [], ◌∷◌, ◌≡◌, refl,
  if◌then◌else◌, arith,
}
use lass_das.Engine.Pause.{stored}
use lass_das.Engine.Turns.{
  TurnSite, Asking, TurnCall, moved, assigned, recorded, Turned, accepts, assigns, records_hours,
  refuse, save_turns, settle_turn,
}

-- To whom the accepted calls gave the issue, the latest first.
unfoldable pub handed_to : List (TurnCall × Bool) → List String
handed_to [] = []
handed_to ((assigned who, true) ∷ asked) = who ∷ handed_to asked
handed_to ((assigned who, false) ∷ asked) = handed_to asked
handed_to ((moved, ok) ∷ asked) = handed_to asked
handed_to ((recorded minutes, ok) ∷ asked) = handed_to asked

-- No hand-over is to whom the one before was.
abbrev pub Alternates : List String → Type 0
Alternates [] = Unit
Alternates (who ∷ []) = Unit
Alternates (who ∷ before ∷ earlier) = ((before == who) ≡ false) × Alternates (before ∷ earlier)

unfoldable pub moves : List (TurnCall × Bool) → ℕ
moves [] = 0
moves ((moved, true) ∷ asked) = suc (moves asked)
moves ((moved, false) ∷ asked) = moves asked
moves ((assigned who, ok) ∷ asked) = moves asked
moves ((recorded minutes, ok) ∷ asked) = moves asked

unfoldable pub recordings : List (TurnCall × Bool) → ℕ
recordings [] = 0
recordings ((recorded minutes, true) ∷ asked) = suc (recordings asked)
recordings ((recorded minutes, false) ∷ asked) = recordings asked
recordings ((assigned who, ok) ∷ asked) = recordings asked
recordings ((moved, ok) ∷ asked) = recordings asked

abbrev first_or : String → List String → String
first_or who [] = who
first_or who (latest ∷ earlier) = latest

-- The record says what was accepted.
pub record IsRecorded (site : TurnSite) : Type 0 where
  pub alternates : Alternates (handed_to site.asked)
  pub latest : first_or "" (handed_to site.asked) ≡ site.turns.assignee
  pub moved_once : moves site.asked ≡ (if site.turns.category then 1 else 0)
  pub recorded_once : recordings site.asked ≡ (if site.turns.hours then 1 else 0)

abbrev pub IsStored : Turned → Type 0
IsStored (accepts a b) = (a.write ≡ stored) × (b.write ≡ stored)
IsStored (assigns who a) = a.write ≡ stored
IsStored (records_hours accepted finished a) = a.write ≡ stored

-- A hand-over to someone else.
handed_on :
    (who : String) (earlier : List String)
    → (first_or "" earlier == who) ≡ false
    → Alternates earlier
    → Alternates (who ∷ earlier)
handed_on who [] other a = tt
handed_on who (before ∷ earlier) other a = (other, a)

pub assigned-IsRecorded :
    (who : String) (a : Asking) (site : TurnSite)
    → a.write ≡ stored
    → (site.turns.assignee == who) ≡ false
    → IsRecorded site
    → IsRecorded
        (settle_turn "assignee" (assigned who) (record site.turns { assignee = who }) a site)
unfolding settle_turn save_turns refuse handed_to moves recordings
assigned-IsRecorded who a site w other h = answered a.refusal
  where
    answered :
        (refusal : Option String)
        → IsRecorded (
            settle_turn "assignee"
              (assigned who)
              (record site.turns { assignee = who })
              (record a { refusal = refusal })
              site)
    answered none = rw w (record {
      alternates = handed_on who (handed_to site.asked) (rw h.latest other) h.alternates;
      latest = refl;
      moved_once = h.moved_once;
      recorded_once = h.recorded_once;
    })
    answered (some reason) = rw w (record {
      alternates = h.alternates;
      latest = h.latest;
      moved_once = h.moved_once;
      recorded_once = h.recorded_once;
    })

-- A turn that is marked as done where it is accepted.
pub moved-IsRecorded :
    (a : Asking) (site : TurnSite)
    → a.write ≡ stored
    → site.turns.category ≡ false
    → IsRecorded site
    → IsRecorded (settle_turn "category" moved (record site.turns { category = true }) a site)
unfolding settle_turn save_turns refuse handed_to moves recordings
moved-IsRecorded a site w new h = answered a.refusal
  where
    answered :
        (refusal : Option String)
        → IsRecorded (
            settle_turn "category" moved
              (record site.turns { category = true })
              (record a { refusal = refusal })
              site)
    answered none = rw w (record {
      alternates = h.alternates;
      latest = h.latest;
      moved_once = ground (arith, h.moved_once, new);
      recorded_once = h.recorded_once;
    })
    answered (some reason) = rw w (record {
      alternates = h.alternates;
      latest = h.latest;
      moved_once = h.moved_once;
      recorded_once = h.recorded_once;
    })

pub recorded-IsRecorded :
    (minutes : ℕ) (a : Asking) (site : TurnSite)
    → a.write ≡ stored
    → site.turns.hours ≡ false
    → IsRecorded site
    → IsRecorded
        (settle_turn "hours" (recorded minutes) (record site.turns { hours = true }) a site)
unfolding settle_turn save_turns refuse handed_to moves recordings
recorded-IsRecorded minutes a site w new h = answered a.refusal
  where
    answered :
        (refusal : Option String)
        → IsRecorded (
            settle_turn "hours"
              (recorded minutes)
              (record site.turns { hours = true })
              (record a { refusal = refusal })
              site)
    answered none = rw w (record {
      alternates = h.alternates;
      latest = h.latest;
      moved_once = h.moved_once;
      recorded_once = ground (arith, h.recorded_once, new);
    })
    answered (some reason) = rw w (record {
      alternates = h.alternates;
      latest = h.latest;
      moved_once = h.moved_once;
      recorded_once = h.recorded_once;
    })
