-- ===== src/Engine/WorkLimit/Work.antt =====
-- rewrite/cmd/engine/work_limit.go and pause.go: an interval of active work, and a pause released.
use Prim.Native.Nat.{◌%◌}
use lass_das.Base.{
  ℕ, ◌+◌, ◌-◌, String, Bool, true, false, not, ◌||◌, Option, none, some, List, [], ◌∷◌,
  if◌then◌else◌, ltb, leb, is_some, last?, ℤ, pos, same_int, less_int, ◌&&◌,
}
use lass_das.Chain.Types.{Time}
use lass_das.Engine.WorkLimit.{
  WorkClock, StageExits, PauseEpisode, WorkLimit, max_duration, active_limit_pause,
  known_pause_reason, is_held, add_pause, spent, ResumeMark,
}

unfoldable pub is_active : WorkLimit → Bool
is_active r =
    (elim r.clock [ none ↦ false | some c ↦ is_some c.active ])
    || (elim r.stage_exits [ none ↦ false | some e ↦ is_some e.active ])

unfoldable pub exits_or_new : ℕ → Option StageExits → StageExits
exits_or_new hard_exits none = record {
  max = if leb hard_exits 0 then 3 else hard_exits;
  active = none;
  stage = "";
  count = 0;
  mark = 0;
}
exits_or_new hard_exits (some e) = e

-- `beginActiveWork`: whether the work began, and the record behind it.
unfoldable pub begin_active_work : ℕ → Time → WorkLimit → Bool × WorkLimit
unfolding is_active exits_or_new
begin_active_work hard_exits now r = if is_held r || is_active r then (false, r) else elim r.clock [
  | none ↦ (
    true,
    record r {
      stage_exits = some (record (exits_or_new hard_exits r.stage_exits) { active = some now });
    },
  )
  | some c ↦
      if spent c
      then (false, add_pause active_limit_pause now r)
      else (true, record r { clock = some (record c { active = some now }) })
]

-- `finish` of a request with a time limit: a duration below zero, or that cannot be kept, leaves the
-- interval open.
unfoldable pub finish_clock : ℕ → Time → WorkLimit → WorkClock → WorkLimit
finish_clock duration ended r c =
    let c' = record c { elapsed = (c.elapsed + duration) % 18446744073709551616 } in
    let r' = record r { clock = some c' } in
    let paused = if spent c' then add_pause active_limit_pause ended r' else r' in
    if ltb max_duration duration || ltb (max_duration - c.elapsed) duration
    then r
    else record paused { clock = some (record c' { active = none }) }

unfoldable pub finish_exits : WorkLimit → Option StageExits → WorkLimit
finish_exits r none = r
finish_exits r (some e) = record r { stage_exits = some (record e { active = none }) }

unfoldable pub finish_with : ℕ → Time → WorkLimit → Option WorkClock → WorkLimit
unfolding finish_clock finish_exits
finish_with duration ended r none = finish_exits r r.stage_exits
finish_with duration ended r (some c) = finish_clock duration ended r c

unfoldable pub finish : ℕ → Time → WorkLimit → WorkLimit
unfolding finish_with
finish duration ended r = finish_with duration ended r r.clock

-- `recordWorkPause`.
unfoldable pub record_work_pause : String → Time → WorkLimit → WorkLimit
record_work_pause reason at r =
    if not (known_pause_reason reason) || leb at 0 then r else add_pause reason at r

-- What is written to the latest episode.
unfoldable pub on_latest : (PauseEpisode → PauseEpisode) → List PauseEpisode → List PauseEpisode
on_latest change [] = []
on_latest change (pause ∷ []) = change pause ∷ []
on_latest change (pause ∷ next ∷ pauses) = pause ∷ on_latest change (next ∷ pauses)

abbrev pub latest_is : (PauseEpisode → Bool) → List PauseEpisode → Bool
latest_is test pauses = elim (last? pauses) [ none ↦ false | some pause ↦ test pause ]

-- The notice of the latest pause, where none is recorded yet.
unfoldable pub record_notice : ℤ → WorkLimit → WorkLimit
unfolding on_latest
record_notice id r =
    if is_held r && latest_is (λ pause. same_int pause.notice_id (pos 0)) r.pauses
    then record r { pauses = on_latest (λ pause. record pause { notice_id = id }) r.pauses }
    else r

-- `pause.Resume` is set.
unfoldable pub note_resume : ResumeMark → WorkLimit → WorkLimit
unfolding on_latest
note_resume mark r = record r {
  pauses = on_latest (λ pause. record pause { resume = some mark }) r.pauses;
}

-- The mark that applyPauseResume saves for an instruction that was read.
abbrev pub new_mark : ℕ → Time → ResumeMark
new_mark index now = record {
  is_json = true;
  history_index = pos index;
  recorded_at = now;
  applied = false;
}

-- An instruction that is taken for the latest pause: one that holds, has its notice, and has none yet.
unfoldable pub take_resume : ℕ → Time → WorkLimit → WorkLimit
unfolding note_resume
take_resume index now r =
    if is_held r
      && latest_is (λ pause. less_int (pos 0) pause.notice_id && not (is_some pause.resume))
          r.pauses
    then note_resume (new_mark index now) r
    else r

abbrev pub apply_mark : PauseEpisode → PauseEpisode
apply_mark pause = elim pause.resume [
  | none ↦ pause
  | some mark ↦ record pause { resume = some (record mark { applied = true }) }
]

unfoldable pub reset_clock : Option WorkClock → Option WorkClock
reset_clock none = none
reset_clock (some c) =
    some (record c { elapsed = 0; active = none; hard_exits = 0; recovery_notice_at = none })

unfoldable pub reset_exits : Option StageExits → Option StageExits
reset_exits none = none
reset_exits (some e) = some (record e { active = none; stage = ""; count = 0; mark = 0 })

-- The end of `applyPauseResume`.
unfoldable pub apply_pause_resume : WorkLimit → WorkLimit
unfolding on_latest reset_clock reset_exits
apply_pause_resume r = record {
  pauses = on_latest apply_mark r.pauses;
  clock = reset_clock r.clock;
  stage_exits = reset_exits r.stage_exits;
}

-- A call of `applyPauseResume` that goes through, for a pause with its instruction.
unfoldable pub finish_pause : WorkLimit → WorkLimit
unfolding apply_pause_resume
finish_pause r =
    if is_held r && latest_is (λ pause. is_some pause.resume) r.pauses
    then apply_pause_resume r
    else r
