-- ===== src/Examples/Limits.antt =====
-- The theorem about the bound on active work, at a request that is killed twice.
use lass_das.Base.{none, some, List, [], ◌∷◌, pos}
use lass_das.Engine.WorkLimit.{WorkLimit}
use lass_das.Engine.WorkLimit.Kept.{Operation}
use lass_das.Examples.Sample.{answered}

abbrev accepted : WorkLimit
accepted = record {
  pauses = [];
  stage_exits = none;
  clock = some (record {
    max_minutes = 60;
    elapsed = 0;
    active = none;
    max_hard_exits = 2;
    hard_exits = 0;
    recovery_notice_at = none;
  });
}

abbrev killed_twice : List Operation
killed_twice =
    Operation.begins 2 10
    ∷ Operation.recovers 20 answered
    ∷ Operation.begins 2 30
    ∷ Operation.recovers 40 answered
    ∷ Operation.notices_pause (pos 8)
    ∷ Operation.takes_resume 3 45
    ∷ Operation.finishes_pause
    ∷ Operation.begins 2 50
    ∷ Operation.finishes 600 60
    ∷ []
