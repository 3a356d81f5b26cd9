-- ===== src/Engine/Pause/Once.antt =====
-- rewrite/cmd/engine/pause.go, applyPauseResume: the words of the requester join the history once, wherever the
-- engine ends in between.
use lass_das.Base.{
  true, false, not, ◌&&◌, ◌||◌, Option, none, some, List, [], ◌∷◌, ◌++◌, ◌≡◌, ◌⊎◌, inl, inr, refl,
  sym, ap, subst, ◌∙◌, if◌then◌else◌, leb, length, ℤ, arith, Bool-cases,
}
use lass_das.Chain.Types.{Time, Result}
use lass_das.Engine.WorkLimit.{WorkLimit, is_held}
use lass_das.Engine.WorkLimit.Work.{note_resume, apply_pause_resume}
use lass_das.Engine.Comments.{Comment, is_control, is_resume, says}
use lass_das.Engine.Pause.{
  PauseResume, mark_of, Files, Write, stored, written, lost, put, is_stored, resume_words, Attempt,
  release_pause, is_joined, join_words, finish_resume, accept_resume, continue_resume, apply_resume,
  apply_all,
}
use lass_das.Engine.Pause.Words.{
  is_joined-snoc, not_shorter, note_resume-held, apply_pause_resume-held,
}

abbrev pub noted_at : Comment → List Result → Time → PauseResume
noted_at c history at = record {
  comment = some c;
  history_index = length history;
  recorded_at = at;
}

module _ (creator : ℤ) (operators : List ℤ) (notice : ℤ) (history : List Result)
    (work : WorkLimit) where
  -- The comment that was taken: an instruction to resume, by the requester or an operator, behind the
  -- notice of the pause.
  abbrev IsTaken : Comment → Type 0
  IsTaken c = (c.on_issue && is_resume creator operators notice c) ≡ true

  -- The record with the instruction noted.
  abbrev noted_work : Comment → Time → WorkLimit
  noted_work c at = note_resume (mark_of (noted_at c history at)) work

  -- How far the release has come.
  pub data Progress (f : Files) : Type 0 where
    untouched : f.resume ≡ none → f.state.history ≡ history → f.work ≡ work → Progress f
    noted :
        (c : Comment) (at : Time)
        → IsTaken c
        → f.resume ≡ some (noted_at c history at)
        → f.state.history ≡ history
        → f.work ≡ noted_work c at
        → Progress f
    joined :
        (c : Comment) (at : Time)
        → IsTaken c
        → f.resume ≡ some (noted_at c history at)
        → f.state.history ≡ history ++ resume_words c at ∷ []
        → f.work ≡ noted_work c at
        → Progress f
    released :
        (c : Comment) (at : Time)
        → IsTaken c
        → f.state.history ≡ history ++ resume_words c at ∷ []
        → f.work ≡ apply_pause_resume (noted_work c at)
        → Progress f

  taken_control : (c : Comment) → IsTaken c → is_control notice c ≡ true
  unfolding is_control is_resume says
  taken_control c t = ground (arith, t)

  release-Progress :
      (t : Attempt) (f : Files) (c : Comment) (at : Time)
      → IsTaken c
      → f.resume ≡ some (noted_at c history at)
      → f.state.history ≡ history ++ resume_words c at ∷ []
      → f.work ≡ noted_work c at
      → Progress (release_pause t f)
  unfolding release_pause put
  release-Progress t f c at k r h w = by_write t.third
    where
      by_write :
          (write : Write) → Progress (put write (record f { work = apply_pause_resume f.work }) f)
      by_write stored = released c at k h (ap apply_pause_resume w)
      by_write written = released c at k h (ap apply_pause_resume w)
      by_write lost = joined c at k r h w

  at_index :
      (past now : List Result)
      → now ≡ past
      → (leb (length now) (length past) && leb (length past) (length now)) ≡ true
  at_index past now e = rw e (ground arith)

  past_index :
      (past now : List Result) (r : Result)
      → now ≡ past ++ r ∷ []
      → (leb (length now) (length past) && leb (length past) (length now)) ≡ false
  past_index past now r e = rw (e, not_shorter past r) refl

  -- The words join the history where they are not yet there.
  join-noted :
      (t : Attempt) (f : Files) (c : Comment) (at : Time)
      → IsTaken c
      → f.resume ≡ some (noted_at c history at)
      → f.state.history ≡ history
      → f.work ≡ noted_work c at
      → Progress (join_words t c (noted_at c history at) f)
  unfolding join_words put is_stored
  join-noted t f c at k r h w = rw (at_index history f.state.history h) (by_write t.second)
    where
      grown : Files
      grown = record f {
        state = record f.state { history = f.state.history ++ resume_words c at ∷ [] };
      }

      longer : grown.state.history ≡ history ++ resume_words c at ∷ []
      longer = ap (λ (past : List Result). past ++ resume_words c at ∷ []) h

      by_write :
          (write : Write)
          → Progress
              (if is_stored write then release_pause t (put write grown f) else put write grown f)
      by_write stored = release-Progress t grown c at k r longer w
      by_write written = joined c at k r longer w
      by_write lost = noted c at k r h w

  join-joined :
      (t : Attempt) (f : Files) (c : Comment) (at : Time)
      → IsTaken c
      → f.resume ≡ some (noted_at c history at)
      → f.state.history ≡ history ++ resume_words c at ∷ []
      → f.work ≡ noted_work c at
      → Progress (join_words t c (noted_at c history at) f)
  unfolding join_words
  join-joined t f c at k r h w =
      rw (past_index history f.state.history (resume_words c at) h, found)
        (release-Progress t f c at k r h w)
    where
      found : is_joined f.state.history (length history) (resume_words c at) ≡ true
      found = rw h (is_joined-snoc history (resume_words c at))

  -- The same, from the comment as it is read again.
  finish-noted :
      (t : Attempt) (f : Files) (c : Comment) (at : Time)
      → IsTaken c
      → f.resume ≡ some (noted_at c history at)
      → (f.state.history ≡ history) ⊎ (f.state.history ≡ history ++ resume_words c at ∷ [])
      → f.work ≡ noted_work c at
      → Progress (finish_resume notice t (noted_at c history at) f)
  unfolding finish_resume
  finish-noted t f c at k r (inl h) w = rw (taken_control c k) (join-noted t f c at k r h w)
  finish-noted t f c at k r (inr h) w = rw (taken_control c k) (join-joined t f c at k r h w)

  accept-Progress :
      (t : Attempt) (f : Files) (c : Comment)
      → f.resume ≡ none
      → f.state.history ≡ history
      → f.work ≡ work
      → Progress (accept_resume creator operators notice t c f)
  unfolding accept_resume put is_stored
  accept-Progress t f c r h w =
      elim (Bool-cases (c.on_issue && is_resume creator operators notice c)) [
        | inr other ↦ rw other (untouched r h w)
        | inl taken ↦ rw taken (by_write taken t.first)
      ]
    where
      noting : PauseResume
      noting = noted_at c f.state.history t.now

      same : noting ≡ noted_at c history t.now
      same = ap (λ past. noted_at c past t.now) h

      now_noted :
          noting ≡ noted_at c history t.now
          → note_resume (mark_of noting) f.work ≡ noted_work c t.now
      now_noted e =
          ap (λ (n : PauseResume). note_resume (mark_of n) f.work) e
          ∙ ap (note_resume (mark_of (noted_at c history t.now))) w

      saved : Files
      saved = record f { resume = some noting; work = note_resume (mark_of noting) f.work }

      by_write :
          IsTaken c
          → (write : Write)
          → Progress (
              if is_stored write
              then finish_resume notice t noting (put write saved f)
              else put write saved f)
      by_write k stored =
          subst (λ (n : PauseResume). Progress (finish_resume notice t n saved)) (sym same)
            (finish-noted t saved c t.now k (ap some same) (inl h) (now_noted same))
      by_write k written = noted c t.now k (ap some same) h (now_noted same)
      by_write k lost = untouched r h w

  continue-Progress :
      (t : Attempt) (f : Files) (comment : Option Comment)
      → Progress f
      → is_held f.work ≡ true
      → is_held work ≡ true
      → Progress (continue_resume creator operators notice t f f.resume comment)
  unfolding continue_resume
  continue-Progress t f none (untouched r h w) now held = by_none
    where
      by_none : Progress (continue_resume creator operators notice t f f.resume none)
      by_none =
          subst (λ r. Progress (continue_resume creator operators notice t f r none)) (sym r)
            (untouched r h w)
  continue-Progress t f (some c) (untouched r h w) now held =
      subst (λ r. Progress (continue_resume creator operators notice t f r (some c))) (sym r)
        (accept-Progress t f c r h w)
  continue-Progress t f comment (noted c at k r h w) now held =
      subst (λ r. Progress (continue_resume creator operators notice t f r comment)) (sym r)
        (finish-noted t f c at k r (inl h) w)
  continue-Progress t f comment (joined c at k r h w) now held =
      subst (λ r. Progress (continue_resume creator operators notice t f r comment)) (sym r)
        (finish-noted t f c at k r (inr h) w)
  continue-Progress t f comment (released c at k h w) now held = absurd (
      not_held (
        sym now
        ∙ ap is_held w
        ∙ apply_pause_resume-held (mark_of (noted_at c history at)) work held))
    where
      not_held : true ≡ false → ⊥
      not_held e = cc

  apply-Progress :
      (t : Attempt) (f : Files)
      → is_held work ≡ true
      → Progress f
      → Progress (apply_resume creator operators notice t f)
  unfolding apply_resume
  apply-Progress t f held p =
      elim (Bool-cases (not (is_held f.work) || (f.state.done || t.stopped))) [
        | inl closed ↦ rw closed p
        | inr open_now ↦
            rw open_now (continue-Progress t f t.comment p (ground (arith, open_now)) held)
      ]

  pub apply_all-Progress :
      (attempts : List Attempt) (f : Files)
      → is_held work ≡ true
      → Progress f
      → Progress (apply_all creator operators notice attempts f)
  unfolding apply_all
  apply_all-Progress [] f held p = p
  apply_all-Progress (t ∷ attempts) f held p =
      apply_all-Progress attempts (apply_resume creator operators notice t f) held
        (apply-Progress t f held p)

-- However many calls of applyPauseResume are cut short, and wherever: as long as the pause holds the history is
-- as it was, or with the words of one instruction behind it, by the requester or an operator and newer
-- than the notice; once the pause does not hold, those words are in the history, once.
pub apply_all-once :
    (creator : ℤ) (operators : List ℤ) (notice : ℤ) (attempts : List Attempt) (f : Files)
    → is_held f.work ≡ true
    → f.resume ≡ none
    → let after = apply_all creator operators notice attempts f in
      ((after.state.history ≡ f.state.history) × (is_held after.work ≡ true))
      ⊎ ((c : Comment) × (at : Time) × (is_resume creator operators notice c ≡ true)
          × (after.state.history ≡ f.state.history ++ resume_words c at ∷ []))
apply_all-once creator operators notice attempts f held fresh = read (
    apply_all-Progress creator operators notice f.state.history f.work attempts f held
      (untouched fresh refl refl))
  where
    taken :
        (c : Comment)
        → IsTaken creator operators notice f.state.history f.work c
        → is_resume creator operators notice c ≡ true
    taken c k = ground (arith, k)

    read :
        Progress creator operators notice f.state.history f.work
          (apply_all creator operators notice attempts f)
        → (((apply_all creator operators notice attempts f).state.history ≡ f.state.history)
            × (is_held (apply_all creator operators notice attempts f).work ≡ true))
          ⊎ ((c : Comment) × (at : Time) × (is_resume creator operators notice c ≡ true)
              × ((apply_all creator operators notice attempts f).state.history
                  ≡ f.state.history ++ resume_words c at ∷ []))
    read (untouched r h w) = inl (h, ap is_held w ∙ held)
    read (noted c at k r h w) = inl (
      h,
      ap is_held w ∙ note_resume-held (mark_of (noted_at c f.state.history at)) f.work refl held,
    )
    read (joined c at k r h w) = inr (c, at, taken c k, h)
    read (released c at k h w) = inr (c, at, taken c k, h)
