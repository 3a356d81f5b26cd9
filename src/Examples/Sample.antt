-- ===== src/Examples/Sample.antt =====
-- A configured ordered run and the records of a request that it carries.
use lass_das.Base.{String, true, false, none, some, List, [], ◌∷◌, pos}
use lass_das.Chain.Types.{
  Result, no_result, Stage, no_stage, Workflow, State, model_stage, command_stage,
}

abbrev pub roles : List (String × String)
roles =
    ("elicit", "settles the request")
    ∷ ("work", "changes the checkout")
    ∷ ("verify", "runs the tests")
    ∷ ("confirm_change", "reads the change")
    ∷ ("deliver", "delivers")
    ∷ ("ask", "asks the requester")
    ∷ []

abbrev pub confirm_change : Stage
confirm_change = record no_stage {
  name = "confirm_change";
  kind = model_stage;
  confirm = true;
  always_ask = true;
}

abbrev pub stages : List Stage
stages =
    record no_stage { name = "elicit"; kind = model_stage }
    ∷ record no_stage { name = "work"; kind = model_stage }
    ∷ record no_stage { name = "verify"; kind = command_stage; on_failure = "work" }
    ∷ confirm_change
    ∷ record no_stage { name = "deliver"; kind = command_stage; on_failure = "work" }
    ∷ []

abbrev pub workflow : Workflow
workflow = record {
  start = [];
  after = [];
  recover = [];
  stages = stages;
  question = "ask";
  entrance_rework_limit = pos 1;
  confirmation_rework_limit = pos 0;
  launch_limit = [];
  environment_pause_limit = pos 0;
  preview = none;
}

-- One clean launch of a stage: its process record and the runtime's note.
abbrev pub clean : String → List Result → List Result
clean role later =
    record no_result { role = role; speaker = role }
    ∷ record no_result { role = role; speaker = "runtime" }
    ∷ later

abbrev pub failed_launch : String → List Result → List Result
failed_launch role later =
    record no_result { role = role; speaker = role; error = "exit status 1" }
    ∷ record no_result { role = role; speaker = "runtime" }
    ∷ later

abbrev pub question : List Result → List Result
question later =
    record no_result { role = "ask"; speaker = "asker"; output = "Deliver it?" } ∷ later

abbrev pub reply : List Result → List Result
reply later = record no_result { role = "ask"; speaker = "requester"; output = "Yes." } ∷ later

abbrev pub new_state : State
new_state = record {
  request = "Add a page.";
  history = [];
  pending = none;
  done = false;
  workflow = some workflow;
  step = "";
  awaiting_approval = none;
  waiting = false;
  recovering = false;
  waiting_without_question = false;
  questions_without_post = 0;
  question_unavailable = "";
  question_reply_after = pos 0;
  pending_since = 0;
}

abbrev pub state_of : List Result → State
state_of history = record new_state { history = history }

-- The change was read, the requester was asked and answered, and the change was read again.
abbrev pub answered : State
answered = state_of (
    clean "elicit" (
      clean "work"
        (clean "verify" (clean "confirm_change" (question (reply (clean "confirm_change" [])))))))

-- Every stage has run.
abbrev pub delivered : State
delivered = state_of (
    clean "elicit" (
      clean "work" (
        clean "verify" (
          clean "confirm_change"
            (question (reply (clean "confirm_change" (clean "deliver" []))))))))

-- The entrance was chosen again, and its limit is one repeat.
abbrev pub repeated : State
repeated = state_of (clean "elicit" (clean "elicit" []))

-- Two launches of the same stage failed, and the runtime stopped a third.
abbrev pub failing : State
failing = state_of (
    clean "elicit" (
      failed_launch "work" (
        failed_launch "work" (
          record no_result {
            role = "work";
            speaker = "work";
            error = "stopped";
            interrupted = true;
          }
          ∷ []))))
