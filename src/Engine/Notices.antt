-- ===== src/Engine/Notices.antt =====
-- rewrite/cmd/engine/notice.go: the engine's own comments on an issue. A notice is recorded before it is
-- submitted and marked once it is confirmed. The tracker is the list of its comments; each of its answers, and
-- each write of the record, is an argument. The reference of an approval that a record keeps is left out.
pub mod Due
pub mod Settle
pub mod Rewrite
pub mod Saying
pub mod Once
pub mod Retry
pub mod Attempts
pub mod Kinds
pub mod Old
use mathlib.Core.List.{reverse}
use text.Mathlib.Text.{starts_with}
use lass_das.Base.{
  ℕ, zero, suc, ◌-◌, ◌*◌, String, ◌==◌, ◌<>◌, Bool, true, false, not, ◌&&◌, ◌||◌, Option, none,
  some, List, [], ◌∷◌, ◌++◌, if◌then◌else◌, leb, ltb, is_some, ℤ, pos, same_int, less_int, is_zero,
  any,
}
use lass_das.Chain.Types.{Time}

pub record NoticeRecord : Type 0 where
  pub kind : String
  pub text : String
  pub written_at : Time
  pub posted_at : Option Time
  pub predates : Bool
  pub obsolete : Bool
  pub models : String
  pub event : String
  pub comment_id : ℤ
  pub edits : ℤ
  pub also : List ℤ

-- `noticeLog`.
abbrev pub NoticeLog : Type 0
NoticeLog = List NoticeRecord

-- `noticeRecord.ids`.
unfoldable pub ids : NoticeRecord → List ℤ
ids r = r.comment_id ∷ r.also

unfoldable pub is_pending : NoticeRecord → Bool
is_pending r = not (is_some r.posted_at) && (not r.predates && not r.obsolete)

unfoldable pub next_index : Option ℕ → Option ℕ
next_index none = none
next_index (some i) = some (suc i)

-- `pendingNotice`, `none` for its -1.
unfoldable pub pending_notice : NoticeLog → Option ℕ
unfolding is_pending next_index
pending_notice [] = none
pending_notice (r ∷ log) =
    let rest = pending_notice log in if is_pending r then some 0 else next_index rest

abbrev pub stage_prefix : String
stage_prefix = "stage:"

unfoldable pub once_notice : String → Bool
once_notice kind =
    (kind == "queue-disk-usage")
    || ((kind == "accepted")
        || ((kind == "started") || ((kind == "models") || starts_with kind stage_prefix)))

abbrev pub budget_waiting_text : String
budget_waiting_text = "モデル利用枠の残りが設定の下限を下回っているため、待機中です。枠が戻り次第、自動で処理を始めます。"

-- A receipt that already told the requester why the work must wait.
unfoldable pub tells_budget : String → NoticeRecord → Bool
tells_budget text r = not r.predates && ((r.text == text) || starts_with r.text (text <> "\n"))

-- The latest word on the budget: the kind that may speak next, over the records from the latest on.
unfoldable pub next_budget : NoticeLog → String
unfolding tells_budget
next_budget [] = "budget-paused"
next_budget (r ∷ earlier) =
    let rest = next_budget earlier in
    if r.kind == "accepted"
    then (if tells_budget ("受け付けました。" <> budget_waiting_text) r then "budget-restored" else rest)
    else if r.kind == "resumed"
    then (if tells_budget ("返答を受け取りました。" <> budget_waiting_text) r then "budget-restored" else rest)
    else if r.kind == "budget-paused"
    then "budget-restored"
    else if r.kind == "budget-restored"
    then "budget-paused"
    else rest

abbrev pub second : ℕ
second = 1000000000

unfoldable pub interval_of : String → ℕ
interval_of kind = if kind == "stall" then 6 * 3600 * second else 30 * 60 * second

-- The latest record of the kind, over the records from the latest on.
unfoldable pub due_again : String → Time → NoticeLog → Bool
unfolding interval_of once_notice
due_again kind now [] = true
due_again kind now (r ∷ earlier) =
    let rest = due_again kind now earlier in
    if (kind == "started") && (r.kind == "budget-restored")
    then false
    else if r.kind == kind
    then not (once_notice kind) && leb (interval_of kind) (now - r.written_at)
    else rest

-- `noticeDue`.
unfoldable pub notice_due : NoticeLog → String → Time → Bool
unfolding next_budget due_again
notice_due log kind now =
    if (kind == "budget-paused") || (kind == "budget-restored")
    then kind == next_budget (reverse log)
    else if (kind == "started") && (next_budget (reverse log) == "budget-restored")
    then false
    else due_again kind now (reverse log)
