-- ===== src/Examples/Comments.antt =====
-- The theorems about instructions and pauses, at the comments of one request.
use lass_das.Base.{
  ℕ, String, true, false, Option, none, some, List, [], ◌∷◌, ◌++◌, ◌≡◌, ◌≢◌, ◌⊎◌, refl, pos, In,
  less_int, is_zero, split_lines, trim_space, ◌==◌,
}
use lass_das.Chain.Types.{Time}
use lass_das.Engine.WorkLimit.{is_held}
use lass_das.Engine.Comments.{
  Comment, found, is_authorized, says, stop_word, is_resume, resume_instruction, lowest_resume,
  Control, first_notice, pause_reply_ids, saved_ids, append_id, add_saved, repeated_ids, is_control,
  answer_to_question, is_answer, first_instruction_line, first_nonblank, is_positive,
}
use lass_das.Engine.Comments.Lowest.{Above, is_offered, resume_instruction-lowest}
use lass_das.Engine.Comments.Controls.{answer_to_question-no_control}
use lass_das.Engine.Pause.{Files, Attempt, stored, written, lost, apply_all, resume_words}
use lass_das.Engine.Pause.Once.{apply_all-once}
use lass_das.Examples.Sample.{answered}

abbrev pub comment : ℕ → String → Comment
comment id body = record {
  id = pos id;
  body = body;
  author = record { id = pos 5; login = "requester" };
  on_issue = true;
  created = 10;
  updated = 10;
}

-- The question is 10, the pause is told by 12, and the answer is 14.
abbrev rows : List (Option Comment)
rows =
    some (comment 10 "どちらにしますか")
    ∷ some (comment 11 "停止")
    ∷ some (comment 13 "再開")
    ∷ some (comment 15 "再開")
    ∷ some (comment 14 "左でお願いします")
    ∷ []

abbrev pub controls : List Control
controls = record { notice_id = pos 12; resume = some (some (comment 13 "再開")) } ∷ []

two_controls : pause_reply_ids (pos 5) [] controls rows ≡ found (pos 13 ∷ pos 15 ∷ [])
unfolding pause_reply_ids saved_ids append_id add_saved repeated_ids is_control is_resume says
    first_instruction_line first_nonblank is_authorized first_notice is_positive ◌==◌ split_lines
    trim_space
two_controls = refl

answered_left :
    answer_to_question (pos 5) [] rows (pos 10) ([] ++ pos 13 ∷ pos 15 ∷ [])
    ≡ found (comment 14 "左でお願いします")
unfolding answer_to_question is_answer first_instruction_line first_nonblank is_authorized
    is_positive ◌==◌ split_lines trim_space
answered_left = refl

answer_to_question-no_control_example :
    (is_authorized (pos 5) [] (pos 5) ≡ true)
    × (less_int (pos 10) (pos 14) ≡ true)
    × (says (pos 5) [] stop_word (comment 14 "左でお願いします") ≡ false)
    × ((control : Control) (d : Comment)
        → In control controls
        → control.resume ≡ some (some d)
        → pos 14 ≢ d.id)
    × (is_zero (first_notice (pos 0) controls) ≡ false
        → is_resume (pos 5) [] (first_notice (pos 0) controls) (comment 14 "左でお願いします") ≡ false)
answer_to_question-no_control_example =
    answer_to_question-no_control (pos 5) [] controls rows (pos 13 ∷ pos 15 ∷ []) [] (pos 10)
      (comment 14 "左でお願いします") two_controls answered_left

first_resumes :
    resume_instruction (pos 5) [] rows (pos 12) (pos 13 ∷ []) ≡ found (some (comment 15 "再開"))
unfolding resume_instruction lowest_resume is_resume says first_instruction_line first_nonblank
    is_authorized is_positive ◌==◌ split_lines trim_space
first_resumes = refl

resume_instruction-lowest_example :
    ((d : Comment)
      → In (some d) rows
      → is_offered (pos 5) [] (pos 12) (pos 13 ∷ []) d ≡ true
      → Above (pos 5) [] (pos 12) (pos 13 ∷ []) d (some (comment 15 "再開")))
    × ((c : Comment)
        → some (comment 15 "再開") ≡ some c
        → In (some c) rows × (is_offered (pos 5) [] (pos 12) (pos 13 ∷ []) c ≡ true))
resume_instruction-lowest_example =
    resume_instruction-lowest (pos 5) [] (pos 12) (pos 13 ∷ []) rows (some (comment 15 "再開")) refl
      first_resumes

-- A request that is paused for its environment.
abbrev paused : Files
paused = record {
  work = record {
    pauses =
        record {
          reason = "environment-short";
          at = 5;
          notice_id = pos 12;
          resume = none;
          elapsed = 0;
        }
        ∷ [];
    clock = none;
    stage_exits = none;
  };
  resume = none;
  state = answered;
}

abbrev attempt : Attempt
attempt = record {
  now = 100;
  comment = some (comment 13 "再開");
  stopped = false;
  first = stored;
  second = stored;
  third = stored;
}

-- The engine ends behind the first write, behind the second, and comes through.
abbrev cut_short : List Attempt
cut_short =
    record attempt { first = written }
    ∷ record attempt { now = 200; second = written }
    ∷ record attempt { now = 300; third = lost }
    ∷ record attempt { now = 400 }
    ∷ []

apply_all-once_example :
    let after = apply_all (pos 5) [] (pos 12) cut_short paused in
    ((after.state.history ≡ answered.history) × (is_held after.work ≡ true))
    ⊎ ((c : Comment) × (at : Time) × (is_resume (pos 5) [] (pos 12) c ≡ true)
        × (after.state.history ≡ answered.history ++ resume_words c at ∷ []))
unfolding is_held
apply_all-once_example = apply_all-once (pos 5) [] (pos 12) cut_short paused refl refl
