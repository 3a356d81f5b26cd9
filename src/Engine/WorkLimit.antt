-- ===== src/Engine/WorkLimit.antt =====
-- rewrite/cmd/engine/work_limit.go and pause.go: the record that bounds a request's active work and its
-- forced exits. A time is a natural number, 0 the zero time, and a duration is the pattern of its 64 bits: one
-- above `max_duration` is below zero. Counts and minutes below zero, which no operation writes and reading
-- refuses, cannot be written here; the version, which every write sets to 1, is left out. Of the words
-- that resume an episode the comment is left out but for whether it is JSON.
pub mod Work
pub mod Valid
pub mod Latest
pub mod Kept
use Prim.Native.Nat.{◌^◌, ◌/◌}
use lass_das.Base.{
  ℕ, zero, suc, ◌+◌, ◌-◌, ◌*◌, String, ◌==◌, Bool, true, false, not, ◌&&◌, ◌||◌, Option, none, some,
  List, [], ◌∷◌, ◌++◌, if◌then◌else◌, ltb, leb, last?, is_some, all, any, drop, length, is_empty, ℤ,
  pos, less_int,
}
use lass_das.Chain.Types.{Time, Result, State, Assignment}
use lass_das.Chain.Refusals.{approval_pause_text}

pub record WorkClock : Type 0 where
  pub max_minutes : ℕ
  pub elapsed : ℕ
  pub active : Option Time
  pub max_hard_exits : ℕ
  pub hard_exits : ℕ
  pub recovery_notice_at : Option Time

pub record StageExits : Type 0 where
  pub max : ℕ
  pub active : Option Time
  pub stage : String
  pub count : ℕ
  pub mark : ℕ

-- `pauseResume`.
pub record ResumeMark : Type 0 where
  pub is_json : Bool
  pub history_index : ℤ
  pub recorded_at : Time
  pub applied : Bool

pub record PauseEpisode : Type 0 where
  pub reason : String
  pub at : Time
  pub notice_id : ℤ
  pub resume : Option ResumeMark
  pub elapsed : ℕ

pub record WorkLimit : Type 0 where
  pub pauses : List PauseEpisode
  pub clock : Option WorkClock
  pub stage_exits : Option StageExits

abbrev pub minute : ℕ
minute = 60000000000

abbrev pub max_duration : ℕ
max_duration = 9223372036854775807

abbrev pub active_limit_pause : String
active_limit_pause = "active-limit"

abbrev pub hard_exit_pause : String
hard_exit_pause = "hard-exit-limit"

unfoldable pub known_pause_reason : String → Bool
known_pause_reason reason =
    not (approval_pause_text reason == "")
    || ((reason == active_limit_pause)
        || ((reason == hard_exit_pause)
            || ((reason == "stage-attempt-limit") || (reason == "environment-short"))))

-- A marker that is set is not the zero time.
unfoldable pub is_stamped : Option Time → Bool
is_stamped none = true
is_stamped (some at) = ltb 0 at

unfoldable pub valid_work_minutes : ℕ → Bool
valid_work_minutes minutes = leb minutes (max_duration / minute)

unfoldable pub valid_clock : WorkClock → Bool
valid_clock c =
    ltb 0 c.max_minutes
    && (valid_work_minutes c.max_minutes
        && (leb c.elapsed max_duration
            && (is_stamped c.active
                && (ltb 0 c.max_hard_exits
                    && (leb c.hard_exits c.max_hard_exits && is_stamped c.recovery_notice_at)))))

unfoldable pub valid_exits : StageExits → Bool
valid_exits e = ltb 0 e.max && (leb e.count e.max && is_stamped e.active)

unfoldable pub valid_option : {A : Type 0} → (A → Bool) → Option A → Bool
valid_option valid none = true
valid_option valid (some a) = valid a

abbrev pub is_applied : PauseEpisode → Bool
is_applied pause = elim pause.resume [ none ↦ false | some resume ↦ resume.applied ]

unfoldable pub valid_resume : ℤ → Option ResumeMark → Bool
valid_resume notice_id none = true
valid_resume notice_id (some resume) =
    less_int (pos 0) notice_id
    && (not (less_int resume.history_index (pos 0)) && (ltb 0 resume.recorded_at && resume.is_json))

unfoldable pub valid_pause : PauseEpisode → Bool
unfolding valid_resume
valid_pause pause =
    known_pause_reason pause.reason
    && (ltb 0 pause.at
        && (not (less_int pause.notice_id (pos 0))
            && (leb pause.elapsed max_duration && valid_resume pause.notice_id pause.resume)))

-- Every episode but the latest was resumed.
unfoldable pub valid_pauses : List PauseEpisode → Bool
unfolding valid_pause
valid_pauses [] = true
valid_pauses (pause ∷ []) = valid_pause pause
valid_pauses (pause ∷ next ∷ pauses) =
    valid_pause pause && (is_applied pause && valid_pauses (next ∷ pauses))

-- The test of `readWorkLimit`.
unfoldable pub is_valid : WorkLimit → Bool
is_valid r =
    valid_option valid_clock r.clock
    && (valid_option valid_exits r.stage_exits
        && (not (is_some r.clock && is_some r.stage_exits) && valid_pauses r.pauses))

unfoldable pub is_held : WorkLimit → Bool
is_held r = elim (last? r.pauses) [ none ↦ false | some pause ↦ not (is_applied pause) ]

unfoldable pub elapsed_of : Option WorkClock → ℕ
elapsed_of none = 0
elapsed_of (some c) = c.elapsed

unfoldable pub add_pause : String → Time → WorkLimit → WorkLimit
unfolding is_held elapsed_of
add_pause reason at r = if is_held r then r else record r {
  pauses =
      r.pauses
      ++ record {
        reason = reason;
        at = at;
        notice_id = pos 0;
        resume = none;
        elapsed = elapsed_of r.clock;
      }
        ∷ [];
}

-- `acceptWorkLimit`, where no earlier attempt left a record.
unfoldable pub accept_work_limit : ℕ → ℕ → Option WorkLimit
accept_work_limit minutes hard_exits =
    if not (valid_work_minutes minutes)
    then none
    else if leb minutes 0
    then some (record { pauses = []; clock = none; stage_exits = none })
    else some (record {
      pauses = [];
      clock = some (record {
        max_minutes = minutes;
        elapsed = 0;
        active = none;
        max_hard_exits = if leb hard_exits 0 then 3 else hard_exits;
        hard_exits = 0;
        recovery_notice_at = none;
      });
      stage_exits = none;
    })

-- `recoverWorkClock` of a request with a time limit.
unfoldable pub exit_clock : Time → WorkClock → WorkClock
exit_clock now c = record c {
  active = none;
  hard_exits = suc c.hard_exits;
  recovery_notice_at = if leb c.max_hard_exits (suc c.hard_exits) then none else some now;
}

unfoldable pub count_exit : Time → WorkLimit → WorkClock → WorkLimit
count_exit now r c =
    let r' = record r { clock = some (exit_clock now c) } in
    if not (is_some c.active)
    then r
    else if leb c.max_hard_exits (suc c.hard_exits)
    then add_pause hard_exit_pause now r'
    else r'

unfoldable pub spent : WorkClock → Bool
spent c = leb c.elapsed max_duration && leb (c.max_minutes * minute) c.elapsed

unfoldable pub no_notice : Option WorkClock → Option WorkClock
no_notice none = none
no_notice (some c) = some (record c { recovery_notice_at = none })

unfoldable pub recover_clock : Time → WorkLimit → WorkClock → WorkLimit
unfolding count_exit spent no_notice
recover_clock now r c =
    let counted = count_exit now r c in
    if spent c
    then (let paused = add_pause active_limit_pause now counted in
        record paused { clock = no_notice paused.clock })
    else counted

unfoldable pub stage_moved : List Result → String → Bool
stage_moved [] stage = false
stage_moved (r ∷ history) stage =
    ((r.speaker == "requester")
      || ((r.role == stage) && (not (r.speaker == "runtime") && not r.interrupted)))
    || stage_moved history stage

running_stage : State → String
running_stage s = elim s.pending [ none ↦ s.step | some a ↦ a.role ]

unfoldable pub exit_stage : State → StageExits → StageExits
unfolding running_stage stage_moved
exit_stage s e =
    let stage = running_stage s in
    let again =
      leb e.count 0
      || (not (stage == e.stage)
          || (ltb (length s.history) e.mark || stage_moved (drop e.mark s.history) stage)) in
    record e {
      active = none;
      stage = stage;
      count = if again then 1 else suc e.count;
      mark = length s.history;
    }

unfoldable pub recover_exits : Time → State → WorkLimit → StageExits → WorkLimit
unfolding exit_stage
recover_exits now s r e =
    let r' = record r { stage_exits = some (exit_stage s e) } in
    if not (is_some e.active)
    then r
    else if leb e.max (exit_stage s e).count
    then add_pause hard_exit_pause now r'
    else r'

-- `recoverWorkClock`, over the saved history.
unfoldable pub recover_work : Time → State → WorkLimit → WorkLimit
unfolding recover_clock recover_exits
recover_work now s r = if is_held r then r else elim r.clock [
  | some c ↦ recover_clock now r c
  | none ↦ elim r.stage_exits [ none ↦ r | some e ↦ recover_exits now s r e ]
]
