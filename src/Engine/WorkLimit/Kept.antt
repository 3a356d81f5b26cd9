-- ===== src/Engine/WorkLimit/Kept.antt =====
-- rewrite/cmd/engine/work_limit.go and pause.go: any sequence of the operations on an accepted request.
use lass_das.Base.{ℤ, pos, less_int, ℕ, String, Bool, true, List, [], ◌∷◌, ltb}
use lass_das.Chain.Types.{Time, State}
use lass_das.Engine.WorkLimit.{WorkLimit, recover_work}
use lass_das.Engine.WorkLimit.Work.{
  begin_active_work, finish, record_work_pause, record_notice, take_resume, finish_pause,
}

-- What the engine does with the record of a request, each with its time.
pub data Operation : Type 0 where
  recovers : Time → State → Operation
  begins : ℕ → Time → Operation
  finishes : ℕ → Time → Operation
  pauses_for : String → Time → Operation
  notices_pause : ℤ → Operation
  takes_resume : ℕ → Time → Operation
  finishes_pause : Operation

-- The clock never shows the zero time, and the id of a comment is positive.
unfoldable pub is_timely : Operation → Bool
is_timely (recovers now saved) = ltb 0 now
is_timely (begins hard_exits now) = ltb 0 now
is_timely (finishes duration ended) = ltb 0 ended
is_timely (pauses_for reason at) = true
is_timely (notices_pause id) = less_int (pos 0) id
is_timely (takes_resume index now) = ltb 0 now
is_timely finishes_pause = true

unfoldable pub operate : Operation → WorkLimit → WorkLimit
unfolding recover_work begin_active_work finish record_work_pause record_notice take_resume
    finish_pause
operate (recovers now saved) r = recover_work now saved r
operate (begins hard_exits now) r = (begin_active_work hard_exits now r).1
operate (finishes duration ended) r = finish duration ended r
operate (pauses_for reason at) r = record_work_pause reason at r
operate (notices_pause id) r = record_notice id r
operate (takes_resume index now) r = take_resume index now r
operate finishes_pause r = finish_pause r

unfoldable pub operate_all : List Operation → WorkLimit → WorkLimit
unfolding operate
operate_all [] r = r
operate_all (o ∷ operations) r = operate_all operations (operate o r)
