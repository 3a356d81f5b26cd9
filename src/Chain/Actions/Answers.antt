-- ===== src/Chain/Actions/Answers.antt =====
-- stages.go, changeAnswered and the choice after a stage that asks about every change.
use lass_das.Base.{
  ℕ, ◌≡◌, ◌∙◌, String, ◌==◌, Bool, false, not, ◌&&◌, ◌||◌, none, some, List, [], ◌∷◌, arith, any,
  ltb,
}
use lass_das.Chain.Types.{Result, Stage, State}
use lass_das.Chain.Runs.{
  Asked, stage_at, stages_of, question_of, answer_step, answer_loop, change_answered,
}

module _ (stages : List Stage) (question : String) (index : ℕ) where
  -- A record of a stage other than the one at `index`, written by the role or by the runtime.
  touches : Result → Bool
  touches r =
      not (r.role == "router")
      && (not (r.speaker == "requester") && (elim (stage_at stages r.role) [
        | none ↦ false
        | some (_, at) ↦ ltb at index || ltb index at
      ]))

  -- A record of the question role's own launch.
  asks : Result → Bool
  asks r =
      not (r.role == "router")
      && (not (r.speaker == "requester")
          && (elim (stage_at stages r.role) [ none ↦ r.role == question | some _ ↦ false ]))

  -- The requester's reply to a question.
  replies : Result → Bool
  replies r = not (r.role == "router") && ((r.speaker == "requester") && (r.role == question))

  -- A question, a reply behind it, and no record of another stage behind the question.
  unfoldable pub answered_since : List Result → Bool
  unfolding touches asks replies
  answered_since [] = false
  answered_since (r ∷ later) =
      (asks r && (any replies later && not (any touches later))) || answered_since later

  answer_loop-answered :
      (a : Asked) (h : List Result)
      → (answer_loop stages question index a h).1 ≡ (
          answered_since h
          || ((a.0 && (any replies h && not (any touches h))) || (a.1 && not (any touches h))))
  unfolding answer_loop answer_step answered_since
  answer_loop-answered (asked, answered) [] = ground arith
  answer_loop-answered (asked, answered) (r ∷ h) =
      ground (arith, answer_loop-answered (answer_step stages question index (asked, answered) r) h)

-- The single pass of changeAnswered holds exactly when a question of the question role is followed
-- by a reply of the requester and by no record of another stage.
pub change_answered-since :
    (s : State) (index : ℕ)
    → change_answered s index ≡ answered_since (stages_of s) (question_of s) index s.history
unfolding change_answered
change_answered-since s index =
    answer_loop-answered (stages_of s) (question_of s) index (false, false) s.history ∙ ground arith
