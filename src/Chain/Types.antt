-- ===== src/Chain/Types.antt =====
-- The data of rewrite/internal/chain: chain.go (Result, State, Assignment), workflow.go (Workflow,
-- Preview, Approval) and stages.go (Stage). A time is the number of its clock tick, 0 the zero time;
-- a Go string is a text, a pointer an option, a map a list of pairs whose first entry for a key counts.
use lass_das.Base.{ℕ, String, Bool, false, Option, none, List, ℤ, pos}

-- A point of time, `0` for the zero value that `IsZero` reports.
abbrev pub Time : Type 0
Time = ℕ

pub record Result : Type 0 where
  pub role : String
  pub speaker : String
  pub model : String
  pub model_prefix : String
  pub invoked : String
  pub output : String
  pub instruction : String
  pub receipt : String
  pub approval_receipt_failure : String
  pub diagnostics : String
  pub error : String
  pub interrupted : Bool
  pub forced : Bool
  pub activity : String
  pub repeated_failures : ℤ
  pub started_at : Time
  pub finished_at : Time

-- `Result{}`.
abbrev pub no_result : Result
no_result = record {
  role = "";
  speaker = "";
  model = "";
  model_prefix = "";
  invoked = "";
  output = "";
  instruction = "";
  receipt = "";
  approval_receipt_failure = "";
  diagnostics = "";
  error = "";
  interrupted = false;
  forced = false;
  activity = "";
  repeated_failures = pos 0;
  started_at = 0;
  finished_at = 0;
}

pub record Assignment : Type 0 where
  pub role : String
  pub instruction : String

pub record Approval : Type 0 where
  pub approver_user_ids : List ℤ
  pub bundle : String
  pub show : List String
  pub expiry_hours : ℤ
  pub timezone : String
  pub summary : String

pub record AwaitingApproval : Type 0 where
  pub stage : String
  pub post_n : ℤ
  pub post_comment_id : ℤ
  pub deadline : Time

pub record Stage : Type 0 where
  pub name : String
  pub kind : String
  pub on_failure : String
  pub approval : Option Approval
  pub confirm : Bool
  pub always_ask : Bool
  pub announce : String

-- `Stage{}`.
abbrev pub no_stage : Stage
no_stage = record {
  name = "";
  kind = "";
  on_failure = "";
  approval = none;
  confirm = false;
  always_ask = false;
  announce = "";
}

abbrev pub model_stage : String
model_stage = "model"

abbrev pub command_stage : String
command_stage = "command"

abbrev pub environment_pause : String
environment_pause = "pause_for_environment"

pub record Preview : Type 0 where
  pub up : String
  pub down : String
  pub hold_hours : Option ℤ

pub record Workflow : Type 0 where
  pub start : List String
  pub after : List (String × List String)
  pub recover : List (String × List String)
  pub stages : List Stage
  pub question : String
  pub entrance_rework_limit : ℤ
  pub confirmation_rework_limit : ℤ
  pub launch_limit : List (String × ℤ)
  pub environment_pause_limit : ℤ
  pub preview : Option Preview

pub record State : Type 0 where
  pub request : String
  pub history : List Result
  pub pending : Option Assignment
  pub done : Bool
  pub workflow : Option Workflow
  pub step : String
  pub awaiting_approval : Option AwaitingApproval
  pub waiting : Bool
  pub recovering : Bool
  pub waiting_without_question : Bool
  pub questions_without_post : ℕ
  pub question_unavailable : String
  pub question_reply_after : ℤ
  pub pending_since : Time
