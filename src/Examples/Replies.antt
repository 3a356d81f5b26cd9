-- ===== src/Examples/Replies.antt =====
-- The theorem about the answer to a question, at an engine that ends twice while it takes the answer.
use lass_das.Base.{
  ◌==◌, ◌++◌, refl, split_lines, trim_space, true, Option, some, List, [], ◌∷◌, ◌≡◌, ◌⊎◌, pos,
}
use lass_das.Chain.Types.{Time}
use lass_das.Engine.Comments.{
  Comment, stop_instruction, says, first_instruction_line, first_nonblank, is_authorized,
  is_positive, pause_reply_ids, saved_ids, append_id, add_saved, repeated_ids, is_control,
  is_resume, first_notice, answer_to_question, is_answer,
}
use lass_das.Engine.Pause.{stored, written, is_stored}
use lass_das.Engine.Question.{
  QuestionFiles, Resuming, missing, kept, answer_state, answer_words, resume_all, resume_waiting,
  resume_rows, resume_unstopped, set_aside, with_controls, find_question, record_question,
  write_question, noted_after, put_files, answer_recorded, answer_behind, take_answer,
  append_answer, keep_answered,
}
use lass_das.Engine.Question.Once.{IsReply, resume_all-Follows}
use lass_das.Examples.Sample.{answered}
use lass_das.Examples.Comments.{comment, controls}

abbrev unstopped_rows : List (Option Comment)
unstopped_rows =
    some (comment 10 "どちらにしますか")
    ∷ some (comment 13 "再開")
    ∷ some (comment 15 "再開")
    ∷ some (comment 14 "左でお願いします")
    ∷ []

abbrev waiting : QuestionFiles
waiting = record {
  state = record answered { waiting = true };
  question = missing;
  post = kept (some (pos 10));
  answers = [];
}

abbrev attempt : Resuming
attempt = record {
  now = 100;
  rows = some unstopped_rows;
  flushed = true;
  log = some [];
  controls = some controls;
  question_write = stored;
  post_write = stored;
  state_write = stored;
  rename_write = stored;
}

-- The state is saved and the engine ends; then the question cannot be renamed.
abbrev cut_short : List Resuming
cut_short =
    record attempt { state_write = written }
    ∷ record attempt { rename_write = written }
    ∷ attempt
    ∷ []

resume_all-Follows_example :
    ((resume_all (pos 5) [] cut_short waiting).state ≡ waiting.state)
    ⊎ ((c : Comment) × (at : Time) × IsReply (pos 5) [] c
        × (waiting.state.waiting ≡ true)
        × ((resume_all (pos 5) [] cut_short waiting).state ≡ answer_state waiting.state c at))
resume_all-Follows_example = resume_all-Follows (pos 5) [] cut_short waiting

-- The answer is saved and the engine ends before question.json is renamed; the request asks again.
abbrev asked_again : QuestionFiles
asked_again =
    let after = resume_all (pos 5) [] (record attempt { state_write = written } ∷ []) waiting in
    record after { state = record after.state { waiting = true } }

-- Where the engine ends once more before it records the second question, the comment answers both.
taken_twice :
    (resume_all (pos 5) [] (attempt ∷ []) asked_again).state.history
    ≡ answered.history
      ++ answer_words answered (comment 14 "左でお願いします") 100
        ∷ answer_words answered (comment 14 "左でお願いします") 100
        ∷ []
unfolding resume_all resume_waiting resume_rows stop_instruction says first_instruction_line
    first_nonblank is_authorized is_positive ◌==◌ split_lines trim_space resume_unstopped set_aside
    with_controls pause_reply_ids saved_ids append_id add_saved repeated_ids is_control is_resume
    first_notice find_question record_question write_question noted_after put_files is_stored
    answer_recorded answer_behind answer_to_question is_answer take_answer append_answer
    answer_state keep_answered
taken_twice = refl
