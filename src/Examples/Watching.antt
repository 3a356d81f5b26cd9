-- ===== src/Examples/Watching.antt =====
-- The theorems about the loop of a watcher, at a request that runs, is stopped, and waits.
use lass_das.Base.{true, false, List, [], ◌∷◌, ◌≡◌, inr, refl, pos}
use lass_das.Engine.Watch.{
  Watcher, start, Reading, quiet, stop_read, unanswered, awaits_answer, Round, ticked, looked,
  ended, watch_round, watch_rounds, decide_round, read_stop, read_failed, select_event, follow,
  ask_slot, is_held_for_credit,
}
use lass_das.Engine.Watch.Stopped.{IsStoppedNext, watch_rounds-stopped}
use lass_das.Engine.Watch.Held.{only_reports}
use lass_das.Engine.Watch.Launches.{launches_child, MayLaunch, watch_round-MayLaunch}
use lass_das.Engine.Watch.Safe.{IsSafeNext, watch_rounds-IsSafe}
use lass_das.Engine.Watch.Slots.{IsBalanced, held_by, watch_rounds-IsBalanced}

-- A round in which the comments are read so.
abbrev reads : Reading → Round
reads reading = record {
  is_over = false;
  reading = reading;
  has_identity = true;
  credit_known = true;
  credit_low = false;
  stop_saved = false;
  report = record {
    is_configured = true;
    may_report = true;
    is_done = false;
    refusals = 2;
    is_granted = true;
    is_prepared = true;
  };
  question_recorded = true;
  is_free = true;
  work_begins = true;
  events = looked ∷ ticked ∷ [];
}

-- The request runs, three reads fail, it runs again, and a stop is read that cannot be saved at once.
abbrev stopped_rounds : List Round
stopped_rounds =
    reads quiet
    ∷ reads unanswered
    ∷ reads unanswered
    ∷ reads unanswered
    ∷ reads quiet
    ∷ reads stop_read
    ∷ record (reads quiet) { stop_saved = true }
    ∷ []

-- The request runs, and its run ends with a question.
abbrev asking_rounds : List Round
asking_rounds = record (reads quiet) { events = ended awaits_answer ∷ [] } ∷ reads quiet ∷ []

abbrev running : Watcher
running = record start { running = true }

watch_rounds-stopped_example :
    IsStoppedNext (watch_rounds (pos 7) (reads stop_read ∷ stopped_rounds) running).next
    × (launches_child (watch_rounds (pos 7) (reads stop_read ∷ stopped_rounds) running).acts
        ≡ false)
    × (only_reports false false
          (watch_rounds (pos 7) (reads stop_read ∷ stopped_rounds) running).acts
        ≡ true)
watch_rounds-stopped_example =
    watch_rounds-stopped (pos 7) (reads stop_read) stopped_rounds running (inr refl)

launch_read : launches_child (watch_round (pos 7) (reads quiet) start).acts ≡ true
unfolding launches_child watch_round decide_round read_stop read_failed ask_slot select_event follow
    is_held_for_credit
launch_read = refl

watch_round-MayLaunch_example : MayLaunch (reads quiet) start
watch_round-MayLaunch_example = watch_round-MayLaunch (pos 7) (reads quiet) start launch_read

watch_rounds-IsSafe_example : IsSafeNext (watch_rounds (pos 7) stopped_rounds start).next
watch_rounds-IsSafe_example = watch_rounds-IsSafe (pos 7) stopped_rounds start (λ e. cc)

watch_rounds-IsBalanced_example :
    IsBalanced (held_by false) (watch_rounds (pos 7) asking_rounds start)
watch_rounds-IsBalanced_example = watch_rounds-IsBalanced (pos 7) asking_rounds start
