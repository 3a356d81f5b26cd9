-- ===== src/Chain/Run/Phases.antt =====
-- chain.go, Run: the parts of one round of the loop.
use lass_das.Base.{
  ◌<>◌, ℕ, suc, String, ◌==◌, decimal, Bool, true, false, not, ◌&&◌, Option, none, some, [], ◌∷◌,
  ◌++◌, if◌then◌else◌, is_empty, pos, non_positive, below, reaches,
}
use lass_das.Chain.Types.{Result, no_result, Assignment, Preview, State, Time, environment_pause}
use lass_das.Chain.Refusals.{approval_failure_record}
use lass_das.Chain.Actions.{environment_pause_open, environment_pause_note}
use lass_das.Chain.Endings.{failed_in_a_row}
use lass_das.Chain.Offers.{offered, launch_limit_notes}
use lass_das.Chain.Records.{is_approval_stage}
use lass_das.Chain.Routers.{Routed, assigned, failed, not_connected}
use lass_das.Chain.Run.Monad.{
  Chain, QuestionObservation, Gate, passed, refused, awaiting, paused, gate_error, Stop, M, ◌>>=◌,
  ◌>>◌, maybe, ret, stop, ask, check_ended, wait, save,
}

-- The variables of the loop.
pub record Loop : Type 0 where
  pub state : State
  pub confirming : Bool
  pub check_question : Bool

-- `continue` with the next round, or on with this one.
pub data Flow (A : Type 0) : Type 0 where
  again : Loop → Flow A
  on : A → Flow A

abbrev pub flow_case : {A B : Type 0} → Flow A → (A → M (Flow B)) → M (Flow B)
flow_case (again l) f = ret (again l)
flow_case (on a) f = f a

abbrev pub then_flow : {A B : Type 0} → M (Flow A) → (A → M (Flow B)) → M (Flow B)
then_flow m f = m >>= λ flow. flow_case flow f

abbrev pub add_history : State → Result → State
add_history s r = record s { history = s.history ++ r ∷ [] }

-- A note of the runtime about its own routing.
abbrev pub router_note : String → Time → Time → Result
router_note text started finished = record no_result {
  role = "router";
  speaker = "runtime";
  output = text;
  started_at = started;
  finished_at = finished;
}

-- Whether the question was posted; `none` where the conversation could not be read.
unfoldable pub look : Chain → State → M (Option QuestionObservation)
look c s =
    if s.recovering
    then ret (some (record { posted = false; last_comment = pos 0 }))
    else maybe c.question_posted (ret (some (record { posted = true; last_comment = pos 0 }))) ask

abbrev unconfirmed_text : String
unconfirmed_text = "納品前の確認の質問は、投稿を確かめられなかった。依頼者の返答があるまで納品へは進まない"

abbrev unposted_text : String
unposted_text = "質問役は質問を投稿しなかったので、そのまま進める"

abbrev unavailable_text : ℕ → String
unavailable_text n = "質問役を " <> (decimal n <> " 回起動したが質問は無かった。次の依頼者のコメントまで質問役は使わない")

-- The question posted nothing after the first stage: it is counted, and at the limit the question
-- role is used no more until the requester writes.
unfoldable pub count_unposted : Chain → State → QuestionObservation → Time → State
count_unposted c s q now =
    let n = suc s.questions_without_post in
    let limit = if non_positive c.question_no_post_limit then pos 2 else c.question_no_post_limit in
    if reaches n limit
    then record s {
      questions_without_post = n;
      question_unavailable = c.wait_after;
      question_reply_after = q.last_comment;
      history = s.history ++ router_note (unavailable_text n) 0 now ∷ [];
    }
    else record s {
      questions_without_post = n;
      history = s.history ++ router_note unposted_text 0 now ∷ [];
    }

unfoldable pub settle_question : Chain → ℕ → Loop → QuestionObservation → M (Flow State)
unfolding count_unposted save
settle_question c fuel l q =
    if q.posted
    then (save c fuel (record l.state { waiting = true }) >> stop Stop.waiting)
    else if l.confirming
    then (do
      now ← ask c.now
      save c fuel (record l.state {
        waiting = true;
        waiting_without_question = true;
        history = l.state.history ++ router_note unconfirmed_text 0 now ∷ [];
      })
      stop Stop.waiting)
    else (do now ← ask c.now; let s = count_unposted c l.state q now; save c fuel s; ret (on s))

-- The question role's launch is looked up before anything is routed.
unfoldable pub question_phase : Chain → ℕ → Loop → M (Flow State)
unfolding look settle_question wait
question_phase c fuel l =
    if not l.check_question
    then ret (on l.state)
    else (do seen ← look c l.state; maybe seen (wait c >> ret (again l)) (settle_question c fuel l))

unfoldable pub record_reply : Chain → State → String → Time → State
record_reply c s answer now = record s {
  history =
      s.history
      ++ record no_result {
        role = c.wait_after;
        speaker = "requester";
        output = answer;
        finished_at = now;
      }
        ∷ [];
  questions_without_post = 0;
  question_unavailable = "";
  question_reply_after = pos 0;
}

unfoldable pub take_reply : Chain → ℕ → State → String → M State
unfolding record_reply save
take_reply c fuel s answer =
    if answer == ""
    then ret s
    else (do now ← ask c.now; let s' = record_reply c s answer now; save c fuel s'; ret s')

-- While the question role is unavailable a new comment of the requester is looked for.
unfoldable pub reply_phase : Chain → ℕ → State → M State
unfolding take_reply
reply_phase c fuel s =
    if s.question_unavailable == ""
    then ret s
    else maybe c.requester_reply (ret s) (λ read. do
      seen ← ask (λ t. read t s.question_reply_after)
      maybe seen (ret s) (take_reply c fuel s))

-- `attemptsReached`.
unfoldable pub attempts_reached : Chain → State → Bool
attempts_reached c s =
    not (non_positive c.attempt_limit) && not (below (failed_in_a_row s).1 c.attempt_limit)

unfoldable pub notes_phase : Chain → ℕ → State → M State
unfolding save
notes_phase c fuel s = do
  now ← ask c.now
  let notes = launch_limit_notes s now
  if is_empty notes
      then ret s
      else (let s' = record s { history = s.history ++ notes } in save c fuel s' >> ret s')

-- What the router answered, held to what is offered.
unfoldable pub hold : State → Routed → Routed
hold s (failed e) = failed e
hold s (assigned a) = if offered s a.role then assigned a else failed not_connected

unfoldable pub routed_to : Chain → ℕ → Loop → State → Time → Routed → M (Flow (State × Assignment))
unfolding save wait
routed_to c fuel l s started (assigned a) = ret (on (s, a))
routed_to c fuel l s started (failed e) = do
  now ← ask c.now
  let s' = add_history s (record (router_note "" started now) { error = c.error_text e })
  save c fuel s'
  wait c
  ret (again (record l { state = s'; check_question = false }))

-- The router is asked; its failure is recorded, waited on, and the round starts over.
unfoldable pub route_phase : Chain → ℕ → Loop → State → Time → M (Flow (State × Assignment))
unfolding hold routed_to check_ended
route_phase c fuel l s started = do
  answer ← ask (λ t. hold s (c.next t s))
  check_ended c
  routed_to c fuel l s started answer

-- Done, and the pause before any implementation, end the run with nothing launched.
unfoldable pub ending_phase : Chain → ℕ → State → Assignment → Time → M (Unit {0})
unfolding save
ending_phase c fuel s a started =
    if a.role == "done"
    then (save c fuel (record s { done = true }) >> stop Stop.finished)
    else if (a.role == environment_pause) && environment_pause_open s
    then (do
      now ← ask c.now
      save c fuel (add_history s (router_note environment_pause_note started now))
      stop Stop.environment_paused)
    else ret tt

abbrev preview_of : State → Option Preview
preview_of s = elim s.workflow [ none ↦ none | some w ↦ w.preview ]

-- The page goes up before the question that shows the change.
unfoldable pub preview_phase : Chain → State → Assignment → Bool → M (State × Assignment)
unfolding check_ended
preview_phase c s a asking =
    if not asking
    then ret (s, a)
    else maybe c.preview_up (ret (s, a)) (λ up. maybe (preview_of s) (ret (s, a)) (λ preview. do
      began ← ask c.now
      shown ← ask (λ t. up t preview.up s)
      check_ended c
      now ← ask c.now
      ret (
        add_history s (router_note shown.0 began now),
        record a { instruction = a.instruction <> shown.1 },
      )))

unfoldable pub gate_result : Chain → ℕ → Loop → Assignment → State × Gate → M (Flow State)
unfolding save
gate_result c fuel l a (s, passed) = ret (on s)
gate_result c fuel l a (s, refused reason) = do
  now ← ask c.now
  let s' = add_history s (approval_failure_record a.role reason now)
  save c fuel s'
  ret (again (record l { state = s'; check_question = false }))
gate_result c fuel l a (s, awaiting) = save c fuel s >> stop Stop.awaiting_approval
gate_result c fuel l a (s, paused) = save c fuel s >> stop Stop.approval_paused
gate_result c fuel l a (s, gate_error) = stop Stop.gate_failed

-- An approval stage passes the runtime's gate first.
unfoldable pub gate_phase : Chain → ℕ → Loop → State → Assignment → M (Flow State)
unfolding gate_result
gate_phase c fuel l s a =
    if not (is_approval_stage s a.role)
    then ret (on s)
    else maybe c.before_approval (stop Stop.no_gate)
        (λ gate. ask (λ t. gate t s a) >>= gate_result c fuel l a)
