-- ===== src/Engine/Question.antt =====
-- rewrite/cmd/engine/question.go, resumeWaitingRequest, recordQuestion and appendAnswer: how the answer to a question joins
-- the history. `QuestionFiles` is what a restart finds; what each call meets is an argument.
pub mod Once
use lass_das.Base.{
  String, Bool, true, false, not, Option, none, some, List, [], ◌∷◌, ◌++◌, if◌then◌else◌, is_some,
  ℤ, pos, less_int,
}
use lass_das.Chain.Types.{Time, Result, no_result, State}
use lass_das.Engine.Comments.{
  Comment, Found, unreadable, nothing, found, stop_instruction, latest_comment, Control,
  pause_reply_ids, answer_to_question,
}
use lass_das.Engine.Pause.{Write, stored, written, lost, is_stored}
use lass_das.Engine.Notices.{NoticeLog, ids}

-- A file with a questionBoundary: its `after`, where it is there and can be read.
pub data BoundaryFile : Type 0 where
  missing garbled : BoundaryFile
  kept : Option ℤ → BoundaryFile

-- question.json, run/question-post.json, the store, and the questions that were answered.
pub record QuestionFiles : Type 0 where
  pub state : State
  pub question : BoundaryFile
  pub post : BoundaryFile
  pub answers : List ℤ

-- What one call of resumeWaitingRequest meets: what it reads, and how its four writes go.
pub record Resuming : Type 0 where
  pub now : Time
  pub rows : Option (List (Option Comment))
  pub flushed : Bool
  pub log : Option NoticeLog
  pub controls : Option (List Control)
  pub question_write : Write
  pub post_write : Write
  pub state_write : Write
  pub rename_write : Write

-- Its results: an error, or whether the request may run again, and why.
pub data Resumption : Type 0 where
  cannot_say waits stops_again answered_now : Resumption

-- A write of the files.
unfoldable pub put_files : Write → QuestionFiles → QuestionFiles → QuestionFiles
put_files stored new old = new
put_files written new old = new
put_files lost new old = old

-- The position that recordQuestion notes.
unfoldable pub noted_after : List (Option Comment) → BoundaryFile → Found ℤ
unfolding latest_comment
noted_after rows garbled = unreadable
noted_after rows missing = latest_comment rows
noted_after rows (kept none) = latest_comment rows
noted_after rows (kept (some after)) = found after

unfoldable pub write_question : Write → Found ℤ → QuestionFiles → QuestionFiles × Bool
unfolding put_files is_stored
write_question w unreadable f = (f, false)
write_question w nothing f = (f, false)
write_question w (found after) f =
    if less_int after (pos 0)
    then (f, false)
    else (put_files w (record f { question = kept (some after) }) f, is_stored w)

-- `recordQuestion`.
unfoldable pub record_question :
    List (Option Comment) → Write → QuestionFiles → QuestionFiles × Bool
unfolding write_question noted_after
record_question rows w f = write_question w (noted_after rows f.post) f

abbrev pub answer_words : State → Comment → Time → Result
answer_words s c at = record no_result {
  role = s.step;
  speaker = "requester";
  output = c.body;
  finished_at = at;
}

-- The state that appendAnswer saves.
unfoldable pub answer_state : State → Comment → Time → State
answer_state s c at = record s {
  history = s.history ++ answer_words s c at ∷ [];
  waiting = false;
  waiting_without_question = false;
  questions_without_post = 0;
  question_unavailable = "";
  question_reply_after = pos 0;
}

-- `appendAnswer`.
unfoldable pub append_answer : Resuming → Comment → QuestionFiles → QuestionFiles × Bool
unfolding answer_state put_files is_stored
append_answer t c f = if not f.state.waiting then (f, true) else (
  put_files t.state_write (record f { state = answer_state f.state c t.now }) f,
  is_stored t.state_write,
)

-- The answered question is kept under another name.
unfoldable pub keep_answered :
    Resuming → Comment → QuestionFiles × Bool → QuestionFiles × Resumption
unfolding put_files is_stored
keep_answered t c (f, false) = (f, cannot_say)
keep_answered t c (f, true) = (
  put_files t.rename_write (record f { question = missing; answers = c.id ∷ f.answers }) f,
  if is_stored t.rename_write then answered_now else cannot_say,
)

-- An answer that was found.
unfoldable pub take_answer : Resuming → Found Comment → QuestionFiles → QuestionFiles × Resumption
unfolding put_files is_stored append_answer keep_answered
take_answer t unreadable f = (f, cannot_say)
take_answer t nothing f = (f, waits)
take_answer t (found c) f =
    let f' = put_files t.post_write (record f { post = missing }) f in
    if is_stored t.post_write then keep_answered t c (append_answer t c f') else (f', cannot_say)

module _ (creator : ℤ) (operators : List ℤ) where
  -- Behind the question that is on file.
  unfoldable pub answer_behind :
      Resuming
      → List (Option Comment)
      → List ℤ
      → BoundaryFile
      → QuestionFiles
      → QuestionFiles × Resumption
  unfolding take_answer answer_to_question
  answer_behind t rows notices missing f = (f, cannot_say)
  answer_behind t rows notices garbled f = (f, cannot_say)
  answer_behind t rows notices (kept none) f = (f, cannot_say)
  answer_behind t rows notices (kept (some after)) f =
      if less_int after (pos 0)
      then (f, cannot_say)
      else take_answer t (answer_to_question creator operators rows after notices) f

  unfoldable pub answer_recorded :
      Resuming → List (Option Comment) → List ℤ → QuestionFiles × Bool → QuestionFiles × Resumption
  unfolding answer_behind
  answer_recorded t rows notices (f, false) = (f, cannot_say)
  answer_recorded t rows notices (f, true) = answer_behind t rows notices f.question f

  -- The question is recorded where it is not on file.
  unfoldable pub find_question :
      Resuming
      → List (Option Comment)
      → List ℤ
      → BoundaryFile
      → QuestionFiles
      → QuestionFiles × Resumption
  unfolding answer_recorded answer_behind record_question
  find_question t rows notices missing f =
      answer_recorded t rows notices (record_question rows t.question_write f)
  find_question t rows notices garbled f = (f, cannot_say)
  find_question t rows notices (kept after) f = answer_behind t rows notices (kept after) f

  abbrev pub notice_ids : NoticeLog → List ℤ
  notice_ids [] = []
  notice_ids (r ∷ log) = r.comment_id ∷ r.also ++ notice_ids log

  unfoldable pub with_controls :
      Resuming
      → List (Option Comment)
      → List ℤ
      → Found (List ℤ)
      → QuestionFiles
      → QuestionFiles × Resumption
  unfolding find_question
  with_controls t rows notices unreadable f = (f, cannot_say)
  with_controls t rows notices nothing f = (f, cannot_say)
  with_controls t rows notices (found controls) f =
      find_question t rows (notices ++ controls) f.question f

  -- The comments that are no answers.
  unfoldable pub set_aside :
      Resuming
      → List (Option Comment)
      → Option NoticeLog
      → Option (List Control)
      → QuestionFiles
      → QuestionFiles × Resumption
  unfolding with_controls pause_reply_ids
  set_aside t rows none controls f = (f, cannot_say)
  set_aside t rows (some log) none f = (f, cannot_say)
  set_aside t rows (some log) (some controls) f =
      with_controls t rows (notice_ids log) (pause_reply_ids creator operators controls rows) f

  -- Behind the read of a stop.
  unfoldable pub resume_unstopped :
      Resuming → List (Option Comment) → Found Comment → QuestionFiles → QuestionFiles × Resumption
  unfolding set_aside
  resume_unstopped t rows unreadable f = (f, cannot_say)
  resume_unstopped t rows (found stop) f = (f, stops_again)
  resume_unstopped t rows nothing f =
      if t.flushed then set_aside t rows t.log t.controls f else (f, cannot_say)

  unfoldable pub resume_rows :
      Resuming → Option (List (Option Comment)) → QuestionFiles → QuestionFiles × Resumption
  unfolding resume_unstopped stop_instruction
  resume_rows t none f = (f, cannot_say)
  resume_rows t (some rows) f = resume_unstopped t rows (stop_instruction creator operators rows) f

  -- `resumeWaitingRequest`.
  unfoldable pub resume_waiting : Resuming → QuestionFiles → QuestionFiles × Resumption
  unfolding resume_rows
  resume_waiting t f =
      if is_some f.state.awaiting_approval then (f, waits) else resume_rows t t.rows f

  -- One call after another, with any number of restarts between.
  unfoldable pub resume_all : List Resuming → QuestionFiles → QuestionFiles
  unfolding resume_waiting
  resume_all [] f = f
  resume_all (t ∷ attempts) f = resume_all attempts (resume_waiting t f).0
