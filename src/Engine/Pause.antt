-- ===== src/Engine/Pause.antt =====
-- rewrite/cmd/engine/pause.go: the pauses that the engine finds in the saved history, and applyPauseResume with
-- its three writes. A write either reaches the file or not, and the engine hears of it or ends there, so
-- that every place where it can be cut short is an answer. The files hold the record of the request's active
-- work, the words that resume its latest pause, and the state.
pub mod Words
pub mod Once
use lass_das.Base.{
  ℕ, suc, ◌+◌, String, ◌==◌, Bool, true, false, not, ◌&&◌, ◌||◌, Option, none, some, List, [], ◌∷◌,
  ◌++◌, if◌then◌else◌, leb, length, get_elem?, ℤ, same_int, less_int, non_positive, pos, negsuc,
}
use lass_das.Chain.Types.{Time, Result, no_result, State}
use lass_das.Chain.Refusals.{approval_paused}
use lass_das.Chain.Endings.{failed_in_a_row}
use lass_das.Chain.Actions.{environment_paused}
use lass_das.Engine.WorkLimit.{WorkLimit, ResumeMark, is_held, add_pause, no_notice}
use lass_das.Engine.WorkLimit.Work.{record_work_pause, new_mark, note_resume, apply_pause_resume}
use lass_das.Engine.Comments.{Comment, is_control, is_authorized, says, resume_word, is_resume}

-- `intakeConfig.stageAttempts`, at the configured number, 0 where it is left out.
unfoldable pub stage_attempts : ℤ → ℕ
stage_attempts (pos n) = if leb n 0 then 5 else n
stage_attempts (negsuc n) = 5

-- `pauseStageAttempts`.
unfoldable pub pause_stage_attempts : ℤ → Time → State → WorkLimit → WorkLimit
unfolding stage_attempts
pause_stage_attempts configured now s r =
    if is_held r || not (leb (stage_attempts configured) (failed_in_a_row s).1)
    then r
    else add_pause "stage-attempt-limit" now (record r { clock = no_notice r.clock })

-- `pauseEnvironment`.
unfoldable pub pause_environment : Time → State → WorkLimit → WorkLimit
pause_environment now s r =
    if is_held r || not (environment_paused s)
    then r
    else add_pause "environment-short" now (record r { clock = no_notice r.clock })

-- `pauseApproval`.
unfoldable pub pause_for_approval : Time → State → WorkLimit → WorkLimit
pause_for_approval now s r =
    if approval_paused s == "" then r else record_work_pause (approval_paused s) now r

-- `pauseResume`, with its comment as ReadComment reads it.
pub record PauseResume : Type 0 where
  pub comment : Option Comment
  pub history_index : ℕ
  pub recorded_at : Time

-- The same in the record of the request's work, not applied yet.
abbrev pub mark_of : PauseResume → ResumeMark
mark_of resume = new_mark resume.history_index resume.recorded_at

-- The request's directory, as far as a pause is concerned. `resume` is that of the latest episode, with
-- its comment; `work` has its mark.
pub record Files : Type 0 where
  pub work : WorkLimit
  pub resume : Option PauseResume
  pub state : State

-- What a write comes to: it reached the file and the engine knows, it did and the engine ended, or it
-- did not.
pub data Write : Type 0 where
  stored written lost : Write

unfoldable pub put : Write → Files → Files → Files
put stored new old = new
put written new old = new
put lost new old = old

unfoldable pub is_stored : Write → Bool
is_stored stored = true
is_stored written = false
is_stored lost = false

-- `reflect.DeepEqual` of two records of the history.
unfoldable pub same_bool : Bool → Bool → Bool
same_bool true b = b
same_bool false b = not b

unfoldable pub same_result : Result → Result → Bool
unfolding same_bool
same_result a b =
    (a.role == b.role)
    && ((a.speaker == b.speaker)
        && ((a.model == b.model)
            && ((a.model_prefix == b.model_prefix)
                && ((a.invoked == b.invoked)
                    && ((a.output == b.output)
                        && ((a.instruction == b.instruction)
                            && ((a.receipt == b.receipt)
                                && ((a.approval_receipt_failure == b.approval_receipt_failure)
                                    && ((a.diagnostics == b.diagnostics)
                                        && ((a.error == b.error)
                                            && (same_bool a.interrupted b.interrupted
                                                && (same_bool a.forced b.forced
                                                    && ((a.activity == b.activity)
                                                        && (same_int a.repeated_failures
                                                            b.repeated_failures
                                                            && (same_int (pos a.started_at)
                                                            (pos b.started_at)
                                                            && same_int (pos a.finished_at)
                                                            (pos b.finished_at))))))))))))))))

unfoldable pub resume_words : Comment → Time → Result
resume_words comment at = record no_result {
  speaker = "requester";
  output = comment.body;
  finished_at = at;
}

-- One call of applyPauseResume: what it meets, and how its three writes go.
pub record Attempt : Type 0 where
  pub now : Time
  pub comment : Option Comment
  pub stopped : Bool
  pub first : Write
  pub second : Write
  pub third : Write

-- The record of the request with the pause released.
unfoldable pub release_pause : Attempt → Files → Files
release_pause t f = put t.third (record f { work = apply_pause_resume f.work }) f

unfoldable pub is_joined : List Result → ℕ → Result → Bool
unfolding same_result
is_joined history index words =
    (leb (length history) (suc index) && leb (suc index) (length history))
    && elim (get_elem? history index) [ none ↦ false | some last ↦ same_result last words ]

unfoldable pub join_words : Attempt → Comment → PauseResume → Files → Files
unfolding resume_words is_joined is_stored
join_words t comment resume f =
    let words = resume_words comment resume.recorded_at in
    let joined =
      put t.second (record f { state = record f.state { history = f.state.history ++ words ∷ [] } })
        f in
    if leb (length f.state.history) resume.history_index
      && leb resume.history_index (length f.state.history)
    then (if is_stored t.second then release_pause t joined else joined)
    else if is_joined f.state.history resume.history_index words
    then release_pause t f
    else f

-- The words behind a resume that was saved.
unfoldable pub finish_resume : ℤ → Attempt → PauseResume → Files → Files
unfolding join_words
finish_resume notice t resume f = elim resume.comment [
  | none ↦ f
  | some comment ↦ if is_control notice comment then join_words t comment resume f else f
]

unfoldable pub accept_resume : ℤ → List ℤ → ℤ → Attempt → Comment → Files → Files
unfolding finish_resume is_stored
accept_resume creator operators notice t comment f =
    let resume : PauseResume = record {
      comment = some comment;
      history_index = length f.state.history;
      recorded_at = t.now;
    } in
    let saved =
      put t.first (record f { resume = some resume; work = note_resume (mark_of resume) f.work })
        f in
    if comment.on_issue && is_resume creator operators notice comment
    then (if is_stored t.first then finish_resume notice t resume saved else saved)
    else f

-- What a resume that was saved goes on with, and what else the comment at hand is taken for.
unfoldable pub continue_resume :
    ℤ → List ℤ → ℤ → Attempt → Files → Option PauseResume → Option Comment → Files
unfolding accept_resume finish_resume
continue_resume creator operators notice t f (some resume) comment = finish_resume notice t resume f
continue_resume creator operators notice t f none none = f
continue_resume creator operators notice t f none (some comment) =
    accept_resume creator operators notice t comment f

-- `applyPauseResume`, over the latest episode, whose notice has the given id.
unfoldable pub apply_resume : ℤ → List ℤ → ℤ → Attempt → Files → Files
unfolding continue_resume
apply_resume creator operators notice t f =
    if not (is_held f.work) || (f.state.done || t.stopped)
    then f
    else continue_resume creator operators notice t f f.resume t.comment

-- One attempt after another, each over the files that the one before it left.
unfoldable pub apply_all : ℤ → List ℤ → ℤ → List Attempt → Files → Files
unfolding apply_resume
apply_all creator operators notice [] f = f
apply_all creator operators notice (t ∷ attempts) f =
    apply_all creator operators notice attempts (apply_resume creator operators notice t f)
