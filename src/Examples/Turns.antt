-- ===== src/Examples/Turns.antt =====
-- The theorems about the turns, at a request whose tracker refuses for a while.
use Prim.Native.Nat.{◌^◌, min}
use lass_das.Base.{
  ◌+◌, ◌*◌, ◌==◌, true, false, none, some, List, [], ◌∷◌, ◌≡◌, refl, All, leb, if◌then◌else◌, pos,
  lookup_or,
}
use lass_das.Chain.Types.{Time}
use lass_das.Engine.Pause.{stored}
use lass_das.Engine.WorkLimit.{minute}
use lass_das.Engine.Turns.{
  TurnRecord, TurnSite, TurnConfig, Asking, Turned, accepts, assigns, records_hours, hour, refuse,
  due, take_turns,
}
use lass_das.Engine.Turns.Delays.{refuse-due}
use lass_das.Engine.Turns.Recorded.{IsStored, IsRecorded, handed_to, moves, recordings}
use lass_das.Engine.Turns.Handed.{take_turns-IsRecorded}

abbrev new_turns : TurnRecord
new_turns = record {
  category = false;
  assignee = "";
  hours = false;
  refused = [];
  reasons = [];
  next = [];
}

abbrev refused_twice : TurnRecord
refused_twice = record new_turns { refused = ("assignee", 2) ∷ []; next = ("assignee", 9) ∷ [] }

refuse-due_example : due "hours" 500 (refuse "assignee" "forbidden" 100 refused_twice).0 ≡ (
    if "assignee" == "hours"
    then leb (100 + min (minute * 2 ^ lookup_or 0 "assignee" refused_twice.refused) hour) 500
    else due "hours" 500 refused_twice)
refuse-due_example = refuse-due "assignee" "forbidden" "hours" 100 500 refused_twice

abbrev cfg : TurnConfig
cfg = record { assign = true; has_target = true; runtime_user = pos 9; creator = pos 5 }

abbrev takes : Time → Asking
takes now = record { now = now; refusal = none; write = stored }

abbrev refuses : Time → Asking
refuses now = record (takes now) { refusal = some "forbidden" }

abbrev turns : List Turned
turns =
    accepts (takes 1) (refuses 2)
    ∷ assigns "runtime" (takes 3)
    ∷ assigns "runtime" (takes hour)
    ∷ assigns "requester" (takes (hour + 1))
    ∷ records_hours 1 hour (takes (hour + 2))
    ∷ []

abbrev unasked : TurnSite
unasked = record { turns = new_turns; asked = [] }

unasked-IsRecorded : IsRecorded unasked
unfolding handed_to moves recordings
unasked-IsRecorded = record {
  alternates = tt;
  latest = refl;
  moved_once = refl;
  recorded_once = refl;
}

turns-IsStored : All IsStored turns
turns-IsStored = ((refl, refl), (refl, (refl, (refl, (refl, tt)))))

take_turns-IsRecorded_example : IsRecorded (take_turns cfg turns unasked)
take_turns-IsRecorded_example =
    take_turns-IsRecorded cfg turns unasked turns-IsStored unasked-IsRecorded
