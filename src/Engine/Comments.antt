-- ===== src/Engine/Comments.antt =====
-- rewrite/cmd/engine/stop.go, pause.go and question.go: what the requester's and the operators' comments mean.
-- A comment record is what ReadComment made of it, `none` where it could not be read; the records that
-- the tracker keeps stay behind it.
pub mod Lowest
pub mod Answers
pub mod Controls
use lass_das.Base.{
  String, ◌==◌, Bool, true, false, not, ◌&&◌, ◌||◌, Option, none, some, List, [], ◌∷◌, ◌++◌,
  if◌then◌else◌, any, ℤ, pos, same_int, less_int, is_zero, non_positive, trim_space, split_lines,
}
use lass_das.Chain.Types.{Time}

pub record Account : Type 0 where
  pub id : ℤ
  pub login : String

pub record Comment : Type 0 where
  pub id : ℤ
  pub body : String
  pub author : Account
  pub on_issue : Bool
  pub created : Time
  pub updated : Time

abbrev pub stop_word : String
stop_word = "停止"

abbrev pub resume_word : String
resume_word = "再開"

unfoldable pub first_nonblank : List String → String
first_nonblank [] = ""
first_nonblank (line ∷ lines) =
    let rest = first_nonblank lines in if not (trim_space line == "") then trim_space line else rest

unfoldable pub first_instruction_line : String → String
unfolding first_nonblank
first_instruction_line content = first_nonblank (split_lines content)

-- `id > 0`.
unfoldable pub is_positive : ℤ → Bool
is_positive id = less_int (pos 0) id

-- The requester, or an operator of the configuration.
unfoldable pub is_authorized : ℤ → List ℤ → ℤ → Bool
unfolding is_positive
is_authorized creator operators author =
    (is_positive author && same_int author creator)
    || any (λ id. is_positive id && same_int author id) operators

-- The first record that can be read, on the issue, or the error that one cannot.
pub data Found (A : Type 0) : Type 0 where
  unreadable : Found A
  nothing : Found A
  found : A → Found A

module _ (creator : ℤ) (operators : List ℤ) where
  unfoldable pub says : String → Comment → Bool
  unfolding first_instruction_line is_authorized
  says word comment =
      (first_instruction_line comment.body == word)
      && is_authorized creator operators comment.author.id

  -- `stopInstruction`.
  unfoldable pub stop_instruction : List (Option Comment) → Found Comment
  unfolding says
  stop_instruction [] = nothing
  stop_instruction (none ∷ rows) = unreadable
  stop_instruction (some comment ∷ rows) =
      let rest = stop_instruction rows in
      if not comment.on_issue
      then unreadable
      else if says stop_word comment
      then found comment
      else rest

  unfoldable pub is_resume : ℤ → Comment → Bool
  unfolding says
  is_resume after comment = less_int after comment.id && says resume_word comment

  -- The loop of `resumeInstruction`, over the lowest instruction so far.
  unfoldable pub lowest_resume :
      ℤ → List ℤ → Option Comment → List (Option Comment) → Found (Option Comment)
  unfolding is_resume
  lowest_resume after excluded best [] = found best
  lowest_resume after excluded best (none ∷ rows) = unreadable
  lowest_resume after excluded best (some comment ∷ rows) =
      let counts =
        is_resume after comment
        && (not (any (same_int comment.id) excluded)
            && elim best [ none ↦ true | some b ↦ is_zero b.id || less_int comment.id b.id ]) in
      let rest = lowest_resume after excluded (if counts then some comment else best) rows in
      if not comment.on_issue then unreadable else rest

  unfoldable pub resume_instruction : List (Option Comment) → ℤ → List ℤ → Found (Option Comment)
  unfolding lowest_resume
  resume_instruction rows after excluded = lowest_resume after excluded none rows

  -- What `answerToQuestion` passes over.
  unfoldable pub is_answer : ℤ → List ℤ → Comment → Bool
  unfolding first_instruction_line is_authorized
  is_answer after notices comment =
      less_int after comment.id
      && (not (any (same_int comment.id) notices)
          && (is_authorized creator operators comment.author.id
              && (not (trim_space comment.body == "")
                  && not (first_instruction_line comment.body == stop_word))))

  -- `answerToQuestion`.
  unfoldable pub answer_to_question : List (Option Comment) → ℤ → List ℤ → Found Comment
  unfolding is_answer
  answer_to_question [] after notices = nothing
  answer_to_question (none ∷ rows) after notices = unreadable
  answer_to_question (some comment ∷ rows) after notices =
      let rest = answer_to_question rows after notices in
      if not comment.on_issue
      then unreadable
      else if is_answer after notices comment
      then found comment
      else rest

-- `latestComment`, from the greatest id so far.
unfoldable pub latest_from : ℤ → List (Option Comment) → Found ℤ
latest_from highest [] = found highest
latest_from highest (none ∷ rows) = unreadable
latest_from highest (some comment ∷ rows) =
    let rest = latest_from (if less_int highest comment.id then comment.id else highest) rows in
    if not comment.on_issue then unreadable else rest

unfoldable pub latest_comment : List (Option Comment) → Found ℤ
unfolding latest_from
latest_comment rows = latest_from (pos 0) rows

-- An episode's notice and the comment that resumes it, as pauseReplyIDs reads them.
pub record Control : Type 0 where
  pub notice_id : ℤ
  pub resume : Option (Option Comment)

-- The first notice: the lowest positive id.
unfoldable pub first_notice : ℤ → List Control → ℤ
unfolding is_positive
first_notice first [] = first
first_notice first (c ∷ controls) =
    first_notice
      (if is_positive c.notice_id && (is_zero first || less_int c.notice_id first)
        then c.notice_id
        else first)
      controls

unfoldable pub is_control : ℤ → Comment → Bool
unfolding first_instruction_line
is_control notice comment =
    comment.on_issue
    && (less_int notice comment.id && (first_instruction_line comment.body == resume_word))

unfoldable pub append_id : ℤ → Found (List ℤ) → Found (List ℤ)
append_id id unreadable = unreadable
append_id id nothing = nothing
append_id id (found ids) = found (id ∷ ids)

-- What one episode adds.
unfoldable pub add_saved : ℤ → Option (Option Comment) → Found (List ℤ) → Found (List ℤ)
unfolding is_control append_id
add_saved notice none rest = rest
add_saved notice (some none) rest = unreadable
add_saved notice (some (some comment)) rest =
    if is_control notice comment then append_id comment.id rest else unreadable

-- The ids of the instructions that were saved.
unfoldable pub saved_ids : List Control → Found (List ℤ)
unfolding add_saved
saved_ids [] = found []
saved_ids (c ∷ controls) = add_saved c.notice_id c.resume (saved_ids controls)

module _ (creator : ℤ) (operators : List ℤ) where
  -- The repeated instructions among the comments, behind the ids known so far.
  unfoldable pub repeated_ids : ℤ → List ℤ → List (Option Comment) → Found (List ℤ)
  unfolding is_resume
  repeated_ids first ids [] = found ids
  repeated_ids first ids (none ∷ rows) = unreadable
  repeated_ids first ids (some comment ∷ rows) =
      let counts =
        is_resume creator operators first comment && not (any (same_int comment.id) ids) in
      let rest = repeated_ids first (if counts then ids ++ comment.id ∷ [] else ids) rows in
      if not comment.on_issue then unreadable else rest

  -- `pauseReplyIDs`.
  unfoldable pub pause_reply_ids : List Control → List (Option Comment) → Found (List ℤ)
  unfolding saved_ids repeated_ids first_notice
  pause_reply_ids controls rows = elim (saved_ids controls) [
    | unreadable ↦ unreadable
    | nothing ↦ nothing
    | found ids ↦
        if is_zero (first_notice (pos 0) controls)
        then found ids
        else repeated_ids (first_notice (pos 0) controls) ids rows
  ]
