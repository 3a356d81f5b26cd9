-- ===== src/Engine/Comments/Answers.antt =====
-- rewrite/cmd/engine/question.go, answerToQuestion, and pause.go, pauseReplyIDs: what is taken for an answer.
use lass_das.Base.{
  true, not, ◌&&◌, Option, none, some, List, [], ◌∷◌, ◌++◌, ◌≡◌, inl, inr, refl, sym, ap,
  if◌then◌else◌, any, any-append_left, any-append_right, ℤ, same_int, In, Bool-cases, some_inj,
  same_int_refl,
}
use lass_das.Engine.Comments.{
  Comment, found, is_resume, is_answer, answer_to_question, repeated_ids,
}
use lass_das.Engine.Comments.Lowest.{on_issue_of}

pub found_inj : {A : Type 0} {a b : A} → found a ≡ found b → a ≡ b
found_inj e = cc

abbrev pub IsKnown : ℤ → List ℤ → Type 0
IsKnown id ids = any (same_int id) ids ≡ true

-- The first answer and the stop: both loops take the first comment of their kind.
module _ (creator : ℤ) (operators : List ℤ) where
  pub answer_to_question-is_answer :
      (rows : List (Option Comment)) (after : ℤ) (notices : List ℤ) (c : Comment)
      → answer_to_question creator operators rows after notices ≡ found c
      → In (some c) rows × (is_answer creator operators after notices c ≡ true)
  unfolding answer_to_question
  answer_to_question-is_answer [] after notices c e = cc
  answer_to_question-is_answer (none ∷ rows) after notices c e = cc
  answer_to_question-is_answer (some d ∷ rows) after notices c e =
      let rest = (on_issue_of d.on_issue _ c e).1 in
      elim (Bool-cases (is_answer creator operators after notices d)) [
        | inl answers ↦
            let same = found_inj (rw answers at rest) in
            (inl (ap some (sym same)), rw (← same) answers)
        | inr passed ↦
            let (m, a) = answer_to_question-is_answer rows after notices c (rw passed at rest) in
            (inr m, a)
      ]

  -- Every id known before stays known, and every repeated instruction becomes known.
  pub repeated_ids-IsKnown :
      (first : ℤ) (ids : List ℤ) (rows : List (Option Comment)) (all : List ℤ)
      → repeated_ids creator operators first ids rows ≡ found all
      → ((id : ℤ) → IsKnown id ids → IsKnown id all)
        × ((c : Comment)
            → In (some c) rows
            → is_resume creator operators first c ≡ true
            → IsKnown c.id all)
  unfolding repeated_ids
  repeated_ids-IsKnown first ids [] all e = (λ id k. rw (← found_inj e) k, λ c m r. absurd m)
  repeated_ids-IsKnown first ids (none ∷ rows) all e = cc
  repeated_ids-IsKnown first ids (some d ∷ rows) all e =
      let rest = (on_issue_of d.on_issue _ all e).1 in
      let (kept, known) = repeated_ids-IsKnown first (grown d) rows all rest in
      (λ id k. kept id (grown_kept d id k), λ c m r. known_of c m r kept known)
    where
      grown : Comment → List ℤ
      grown d =
          if is_resume creator operators first d && not (any (same_int d.id) ids)
          then ids ++ d.id ∷ []
          else ids

      grown_kept : (d : Comment) (id : ℤ) → IsKnown id ids → IsKnown id (grown d)
      grown_kept d id k =
          elim (Bool-cases (is_resume creator operators first d && not (any (same_int d.id) ids))) [
            | inl added ↦ rw added (any-append_left (same_int id) ids (d.id ∷ []) k)
            | inr old ↦ rw old k
          ]

      grown_self :
          (d : Comment) → is_resume creator operators first d ≡ true → IsKnown d.id (grown d)
      grown_self d r = elim (Bool-cases (any (same_int d.id) ids)) [
        | inl old ↦ grown_kept d d.id old
        | inr new ↦
            rw (r, new)
              (any-append_right (same_int d.id) ids (d.id ∷ []) (rw (same_int_refl d.id) refl))
      ]

      known_of :
          (c : Comment)
          → In (some c) (some d ∷ rows)
          → is_resume creator operators first c ≡ true
          → ((id : ℤ) → IsKnown id (grown d) → IsKnown id all)
          → ((c : Comment)
              → In (some c) rows
              → is_resume creator operators first c ≡ true
              → IsKnown c.id all)
          → IsKnown c.id all
      known_of c (inl e) r kept known =
          rw (some_inj e) (kept d.id (grown_self d (rw (← some_inj e) r)))
      known_of c (inr m) r kept known = known c m r
