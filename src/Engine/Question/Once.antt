-- ===== src/Engine/Question/Once.antt =====
-- rewrite/cmd/engine/question.go, resumeWaitingRequest: an answer joins the history once, wherever the engine ends.
use lass_das.Base.{
  ◌==◌, Bool, true, false, not, Option, none, some, List, [], ◌∷◌, ◌++◌, if◌then◌else◌, is_some, ℤ,
  pos, less_int, ◌≡◌, ◌⊎◌, inl, inr, refl, sym, ap, ◌∙◌, subst, Bool-cases, arith, trim_space,
}
use lass_das.Chain.Types.{Time, State}
use lass_das.Engine.Comments.{
  Comment, Found, unreadable, nothing, found, Control, is_authorized, first_instruction_line,
  stop_word, is_answer, pause_reply_ids, stop_instruction, answer_to_question,
}
use lass_das.Engine.Comments.Answers.{answer_to_question-is_answer}
use lass_das.Engine.Pause.{Write, stored, written, lost, is_stored}
use lass_das.Engine.Notices.{NoticeLog}
use lass_das.Engine.Question.{
  BoundaryFile, missing, garbled, kept, QuestionFiles, Resuming, put_files, noted_after,
  write_question, record_question, answer_state, append_answer, keep_answered, take_answer,
  answer_behind, answer_recorded, find_question, with_controls, set_aside, resume_unstopped,
  resume_rows, resume_waiting, resume_all,
}

write_question-state :
    (w : Write) (after : Found ℤ) (f : QuestionFiles) → (write_question w after f).0.state ≡ f.state
unfolding write_question put_files
write_question-state w unreadable f = refl
write_question-state w nothing f = refl
write_question-state w (found after) f = elim (Bool-cases (less_int after (pos 0))) [
  | inl below ↦ rw below refl
  | inr fine ↦ rw fine (same w)
]
  where
    same : (w : Write) → (put_files w (record f { question = kept (some after) }) f).state ≡ f.state
    same stored = refl
    same written = refl
    same lost = refl

keep_answered-state :
    (t : Resuming) (c : Comment) (p : QuestionFiles × Bool)
    → (keep_answered t c p).0.state ≡ p.0.state
unfolding keep_answered put_files
keep_answered-state t c (f, false) = refl
keep_answered-state t c (f, true) = same t.rename_write
  where
    same :
        (w : Write)
        → (put_files w (record f { question = missing; answers = c.id ∷ f.answers }) f).state
          ≡ f.state
    same stored = refl
    same written = refl
    same lost = refl

post-state :
    (w : Write) (f : QuestionFiles) → (put_files w (record f { post = missing }) f).state ≡ f.state
unfolding put_files
post-state stored f = refl
post-state written f = refl
post-state lost f = refl

module _ (creator : ℤ) (operators : List ℤ) where
  -- The words of the requester or an operator that are not blank and no stop.
  pub record IsReply (c : Comment) : Type 0 where
    pub authorized : is_authorized creator operators c.author.id ≡ true
    pub worded : (trim_space c.body == "") ≡ false
    pub no_stop : (first_instruction_line c.body == stop_word) ≡ false

  -- What one call may do to the state.
  abbrev Follows : State → State → Type 0
  Follows s after =
      (after ≡ s)
      ⊎ ((c : Comment) × (at : Time) × IsReply c
          × (s.waiting ≡ true)
          × (after ≡ answer_state s c at))

  is_answer-IsReply :
      (after : ℤ) (notices : List ℤ) (c : Comment)
      → is_answer creator operators after notices c ≡ true
      → IsReply c
  unfolding is_answer
  is_answer-IsReply after notices c h = record {
    authorized = ground (arith, h);
    worded = ground (arith, h);
    no_stop = ground (arith, h);
  }

  append_answer-Follows :
      (t : Resuming) (c : Comment) (f : QuestionFiles)
      → IsReply c
      → Follows f.state (append_answer t c f).0.state
  unfolding append_answer put_files
  append_answer-Follows t c f r = by_waiting f.state.waiting refl
    where
      saved :
          (w : Write)
          → f.state.waiting ≡ true
          → Follows f.state
              (put_files w (record f { state = answer_state f.state c t.now }) f).state
      saved stored waits = inr (c, t.now, r, waits, refl)
      saved written waits = inr (c, t.now, r, waits, refl)
      saved lost waits = inl refl

      by_waiting :
          (b : Bool)
          → f.state.waiting ≡ b
          → Follows f.state
              (if◌then◌else◌ {A = QuestionFiles × Bool}
                (not b)
                (f, true)
                (
                  put_files t.state_write (record f { state = answer_state f.state c t.now }) f,
                  is_stored t.state_write,
                )).0.state
      by_waiting true waits = saved t.state_write waits
      by_waiting false over = inl refl

  take_answer-Follows :
      (t : Resuming) (r : Found Comment) (f : QuestionFiles)
      → ((c : Comment) → r ≡ found c → IsReply c)
      → Follows f.state (take_answer t r f).0.state
  unfolding take_answer
  take_answer-Follows t unreadable f h = inl refl
  take_answer-Follows t nothing f h = inl refl
  take_answer-Follows t (found c) f h = elim (Bool-cases (is_stored t.post_write)) [
    | inr cut ↦ rw cut (inl (post-state t.post_write f))
    | inl gone ↦ rw gone (
        subst (λ s. Follows s (keep_answered t c (append_answer t c f')).0.state)
          (post-state t.post_write f)
          (subst (λ s. Follows f'.state s) (sym (keep_answered-state t c (append_answer t c f')))
            (append_answer-Follows t c f' (h c refl))))
  ]
    where
      f' : QuestionFiles
      f' = put_files t.post_write (record f { post = missing }) f

  answer_behind-Follows :
      (t : Resuming) (rows : List (Option Comment)) (notices : List ℤ) (q : BoundaryFile)
      (f : QuestionFiles)
      → Follows f.state (answer_behind creator operators t rows notices q f).0.state
  unfolding answer_behind
  answer_behind-Follows t rows notices missing f = inl refl
  answer_behind-Follows t rows notices garbled f = inl refl
  answer_behind-Follows t rows notices (kept none) f = inl refl
  answer_behind-Follows t rows notices (kept (some after)) f =
      elim (Bool-cases (less_int after (pos 0))) [
        | inl below ↦ rw below (inl refl)
        | inr fine ↦ rw fine (
            take_answer-Follows t (answer_to_question creator operators rows after notices) f
              (λ c e.
                is_answer-IsReply after notices c
                  (answer_to_question-is_answer creator operators rows after notices c e).1))
      ]

  recorded-Follows :
      (t : Resuming) (rows : List (Option Comment)) (notices : List ℤ) (p : QuestionFiles × Bool)
      → Follows p.0.state (answer_recorded creator operators t rows notices p).0.state
  unfolding answer_recorded
  recorded-Follows t rows notices (f, false) = inl refl
  recorded-Follows t rows notices (f, true) = answer_behind-Follows t rows notices f.question f

  find_question-Follows :
      (t : Resuming) (rows : List (Option Comment)) (notices : List ℤ) (q : BoundaryFile)
      (f : QuestionFiles)
      → Follows f.state (find_question creator operators t rows notices q f).0.state
  unfolding find_question record_question
  find_question-Follows t rows notices missing f =
      subst
        (λ s.
          Follows s
            (answer_recorded creator operators t rows notices
              (write_question t.question_write (noted_after rows f.post) f)).0.state)
        (write_question-state t.question_write (noted_after rows f.post) f)
        (recorded-Follows t rows notices
          (write_question t.question_write (noted_after rows f.post) f))
  find_question-Follows t rows notices garbled f = inl refl
  find_question-Follows t rows notices (kept after) f =
      answer_behind-Follows t rows notices (kept after) f

  with_controls-Follows :
      (t : Resuming) (rows : List (Option Comment)) (notices : List ℤ) (controls : Found (List ℤ))
      → (f : QuestionFiles)
      → Follows f.state (with_controls creator operators t rows notices controls f).0.state
  unfolding with_controls
  with_controls-Follows t rows notices unreadable f = inl refl
  with_controls-Follows t rows notices nothing f = inl refl
  with_controls-Follows t rows notices (found controls) f =
      find_question-Follows t rows (notices ++ controls) f.question f

  set_aside-Follows :
      (t : Resuming) (rows : List (Option Comment)) (log : Option NoticeLog)
      (controls : Option (List Control))
      → (f : QuestionFiles)
      → Follows f.state (set_aside creator operators t rows log controls f).0.state
  unfolding set_aside
  set_aside-Follows t rows none controls f = inl refl
  set_aside-Follows t rows (some log) none f = inl refl
  set_aside-Follows t rows (some log) (some controls) f =
      with_controls-Follows t rows _ (pause_reply_ids creator operators controls rows) f

  unstopped-Follows :
      (t : Resuming) (rows : List (Option Comment)) (stop : Found Comment) (f : QuestionFiles)
      → Follows f.state (resume_unstopped creator operators t rows stop f).0.state
  unfolding resume_unstopped
  unstopped-Follows t rows unreadable f = inl refl
  unstopped-Follows t rows (found stop) f = inl refl
  unstopped-Follows t rows nothing f = elim (Bool-cases t.flushed) [
    | inl flushed ↦ rw flushed (set_aside-Follows t rows t.log t.controls f)
    | inr pending ↦ rw pending (inl refl)
  ]

  rows-Follows :
      (t : Resuming) (rows : Option (List (Option Comment))) (f : QuestionFiles)
      → Follows f.state (resume_rows creator operators t rows f).0.state
  unfolding resume_rows
  rows-Follows t none f = inl refl
  rows-Follows t (some rows) f =
      unstopped-Follows t rows (stop_instruction creator operators rows) f

  resume_waiting-Follows :
      (t : Resuming) (f : QuestionFiles)
      → Follows f.state (resume_waiting creator operators t f).0.state
  unfolding resume_waiting
  resume_waiting-Follows t f = elim (Bool-cases (is_some f.state.awaiting_approval)) [
    | inl approval ↦ rw approval (inl refl)
    | inr other ↦ rw other (rows-Follows t t.rows f)
  ]

  -- However often resumeWaitingRequest is called and wherever the engine ends in it: the state stays as it was, or, where
  -- the request was waiting, the words of one comment join the history, once, and it waits no longer. The comment is by
  -- the requester or an operator, is not blank and is no stop.
  pub resume_all-Follows :
      (attempts : List Resuming) (f : QuestionFiles)
      → ((resume_all creator operators attempts f).state ≡ f.state)
        ⊎ ((c : Comment) × (at : Time) × IsReply c
            × (f.state.waiting ≡ true)
            × ((resume_all creator operators attempts f).state ≡ answer_state f.state c at))
  unfolding resume_all answer_state
  resume_all-Follows [] f = inl refl
  resume_all-Follows (t ∷ attempts) f =
      then_on (resume_waiting creator operators t f).0.state
        (resume_all creator operators attempts (resume_waiting creator operators t f).0).state
        (resume_waiting-Follows t f)
        (resume_all-Follows attempts (resume_waiting creator operators t f).0)
    where
      then_on :
          (after last : State) → Follows f.state after → Follows after last → Follows f.state last
      then_on after last (inl same) later = subst (λ s. Follows s last) same later
      then_on after last (inr (c, at, r, waits, answered)) (inl same) =
          inr (c, at, r, waits, same ∙ answered)
      then_on after last (inr (c, at, r, waits, answered)) (inr (d, when, q, again, twice)) =
          cc (again, ap (λ (s : State). s.waiting) answered)
