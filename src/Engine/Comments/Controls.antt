-- ===== src/Engine/Comments/Controls.antt =====
-- rewrite/cmd/engine/pause.go, pauseReplyIDs, with question.go, answerToQuestion: the words that stop or resume
-- a request are not the answer to its question.
use lass_das.Base.{
  Bool, true, false, Option, none, some, List, [], ◌∷◌, ◌++◌, ◌≡◌, ◌≢◌, inl, inr, refl, sym, ap,
  ◌∙◌, if◌then◌else◌, any, any-append_right, ℤ, pos, same_int, less_int, is_zero, In, Bool-cases,
  arith, some_inj, same_int_refl,
}
use lass_das.Engine.Comments.{
  Comment, Found, unreadable, nothing, found, is_resume, says, stop_word, is_answer, is_authorized,
  answer_to_question, Control, first_notice, saved_ids, repeated_ids, pause_reply_ids, append_id,
  add_saved, is_control,
}
use lass_das.Engine.Comments.Answers.{
  IsKnown, found_inj, answer_to_question-is_answer, repeated_ids-IsKnown,
}

append_id-found :
    (id : ℤ) (rest : Found (List ℤ)) (ids : List ℤ)
    → append_id id rest ≡ found ids
    → (more : List ℤ) × (rest ≡ found more) × (ids ≡ id ∷ more)
unfolding append_id
append_id-found id unreadable ids e = cc
append_id-found id nothing ids e = cc
append_id-found id (found more) ids e = (more, refl, sym (found_inj e))

if_found :
    {A : Type 0} (b : Bool) (rest : Found A) (r : A)
    → (if b then rest else unreadable) ≡ found r
    → rest ≡ found r
if_found true rest r e = e
if_found false rest r e = cc

-- What an episode adds to the ids that are known.
add_saved-found :
    (notice : ℤ) (resume : Option (Option Comment)) (rest : Found (List ℤ)) (ids : List ℤ)
    → add_saved notice resume rest ≡ found ids
    → (more : List ℤ) × (rest ≡ found more)
      × ((id : ℤ) → IsKnown id more → IsKnown id ids)
      × ((d : Comment) → resume ≡ some (some d) → IsKnown d.id ids)
unfolding add_saved
add_saved-found notice none rest ids e = (ids, e, λ id k. k, λ d n. cc)
add_saved-found notice (some none) rest ids e = cc
add_saved-found notice (some (some c)) rest ids e =
    let (more, same, grown) =
      append_id-found c.id rest ids (if_found (is_control notice c) _ ids e) in
    (
      more,
      same,
      λ id k. rw grown (ground (arith, k)),
      λ d n. rw (grown, ← some_inj (some_inj n), same_int_refl c.id) refl,
    )

-- Every instruction that was saved is known.
saved_ids-IsKnown :
    (controls : List Control) (ids : List ℤ) (control : Control) (d : Comment)
    → saved_ids controls ≡ found ids
    → In control controls
    → control.resume ≡ some (some d)
    → IsKnown d.id ids
unfolding saved_ids
saved_ids-IsKnown [] ids control d e m r = absurd m
saved_ids-IsKnown (c ∷ controls) ids control d e (inl same) r =
    let (_, _, _, new) = add_saved-found c.notice_id c.resume _ ids e in
    new d (sym (ap (λ (k : Control). k.resume) same) ∙ r)
saved_ids-IsKnown (c ∷ controls) ids control d e (inr m) r =
    let (more, rest, kept, _) = add_saved-found c.notice_id c.resume _ ids e in
    kept d.id (saved_ids-IsKnown controls more control d rest m r)

module _ (creator : ℤ) (operators : List ℤ) where
  -- The ids of pauseReplyIDs hold every instruction that was saved, and those that were repeated behind
  -- the first notice of a pause.
  pause_reply_ids-IsKnown :
      (controls : List Control) (rows : List (Option Comment)) (ids : List ℤ)
      → pause_reply_ids creator operators controls rows ≡ found ids
      → ((control : Control) (d : Comment)
          → In control controls
          → control.resume ≡ some (some d)
          → IsKnown d.id ids)
        × ((c : Comment)
            → In (some c) rows
            → is_zero (first_notice (pos 0) controls) ≡ false
            → is_resume creator operators (first_notice (pos 0) controls) c ≡ true
            → IsKnown c.id ids)
  unfolding pause_reply_ids
  pause_reply_ids-IsKnown controls rows ids e = by_saved (saved_ids controls) refl e
    where
      first : ℤ
      first = first_notice (pos 0) controls

      by_saved :
          (saved : Found (List ℤ))
          → saved_ids controls ≡ saved
          → (elim saved [
            | unreadable ↦ unreadable
            | nothing ↦ nothing
            | found ids ↦
                if is_zero first then found ids else repeated_ids creator operators first ids rows
          ])
            ≡ found ids
          → ((control : Control) (d : Comment)
              → In control controls
              → control.resume ≡ some (some d)
              → IsKnown d.id ids)
            × ((c : Comment)
                → In (some c) rows
                → is_zero first ≡ false
                → is_resume creator operators first c ≡ true
                → IsKnown c.id ids)
      by_saved unreadable s e = cc
      by_saved nothing s e = cc
      by_saved (found known) s e = elim (Bool-cases (is_zero first)) [
        | inl unposted ↦
            let same : known ≡ ids = found_inj (rw unposted at e) in
            (
              λ control d m r. rw (← same) (saved_ids-IsKnown controls known control d s m r),
              λ c m z r. cc,
            )
        | inr posted ↦
            let (kept, repeated) =
              repeated_ids-IsKnown creator operators first known rows ids (rw posted at e) in
            (
              λ control d m r. kept d.id (saved_ids-IsKnown controls known control d s m r),
              λ c m z r. repeated c m r,
            )
      ]

  -- Where the ids of pauseReplyIDs are among those passed over: a comment that answerToQuestion takes is by
  -- the requester or an operator, newer than the question, no stop, no instruction that was saved for an
  -- episode, and no instruction to resume behind the first notice of a pause.
  pub answer_to_question-no_control :
      (controls : List Control) (rows : List (Option Comment)) (ids posted : List ℤ)
      → (after : ℤ) (c : Comment) → pause_reply_ids creator operators controls rows ≡ found ids
      → answer_to_question creator operators rows after (posted ++ ids) ≡ found c
      → (is_authorized creator operators c.author.id ≡ true)
        × (less_int after c.id ≡ true)
        × (says creator operators stop_word c ≡ false)
        × ((control : Control) (d : Comment)
            → In control controls
            → control.resume ≡ some (some d)
            → c.id ≢ d.id)
        × (is_zero (first_notice (pos 0) controls) ≡ false
            → is_resume creator operators (first_notice (pos 0) controls) c ≡ false)
  unfolding is_answer says
  answer_to_question-no_control controls rows ids posted after c p e =
      let (among, a) =
        answer_to_question-is_answer creator operators rows after (posted ++ ids) c e in
      let (saved, repeated) = pause_reply_ids-IsKnown controls rows ids p in
      let fresh : any (same_int c.id) (posted ++ ids) ≡ false = ground (arith, a) in
      (
        ground (arith, a),
        ground (arith, a),
        ground (arith, a),
        λ control d m r same.
            known_twice c.id
              (any-append_right (same_int c.id) posted ids (rw same (saved control d m r))) fresh,
        λ z. elim (Bool-cases (is_resume creator operators (first_notice (pos 0) controls) c)) [
          | inr other ↦ other
          | inl again ↦ absurd (
              known_twice c.id
                (any-append_right (same_int c.id) posted ids (repeated c among z again)) fresh)
        ],
      )
    where
      known_twice :
          (id : ℤ) → IsKnown id (posted ++ ids) → any (same_int id) (posted ++ ids) ≡ false → ⊥
      known_twice id k n = cc
