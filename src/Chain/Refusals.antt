-- ===== src/Chain/Refusals.antt =====
-- approval.go: the texts by which the runtime records that an approval did not hold, and the
-- reason read back from such a record; the stages that wait for an approval.
pub mod Pauses
pub mod Reasons
use lass_das.Base.{
  ◌<>◌, String, ◌==◌, ◌&&◌, ◌||◌, none, some, List, [], ◌∷◌, if◌then◌else◌, last?, not, lookup_or,
  ◌++◌,
}
use lass_das.Chain.Types.{Result, no_result, State, Time}

abbrev pub approval_reasons : List String
approval_reasons =
    "rejected" ∷ "expired" ∷ "bundle_name" ∷ "bundle_kind" ∷ "bundle_limit" ∷ "bundle_credential"
    ∷ "show_missing" ∷ "post_size" ∷ "post_fence" ∷ "post_masked" ∷ "digest_collision"
    ∷ "receipt_unreadable" ∷ "summary_unreadable" ∷ []

abbrev approval_failure_prefix : String
approval_failure_prefix = "承認条件が成立しなかった: "

abbrev pub approval_receipt_prefix : String
approval_receipt_prefix = "起動した・結果は読めない (効果不明): "

unfoldable pub approval_failure_text : String → String
approval_failure_text reason =
    if reason == "receipt_unreadable"
    then ◌<>◌ approval_receipt_prefix reason
    else ◌<>◌ approval_failure_prefix reason

unfoldable pub reason_among : List String → String → String
reason_among [] error = ""
reason_among (reason ∷ reasons) error =
    if error == approval_failure_text reason
      || (reason == "bundle_credential" && error == ◌<>◌ approval_receipt_prefix reason)
    then reason
    else reason_among reasons error

unfoldable pub approval_failure_reason : Result → String
unfolding reason_among approval_failure_text
approval_failure_reason result =
    if result.speaker == "runtime" then reason_among approval_reasons result.error else ""

unfoldable pub approval_failure_record : String → String → Time → Result
approval_failure_record stage reason now = record no_result {
  role = stage;
  speaker = "runtime";
  error = approval_failure_text reason;
  finished_at = now;
}

abbrev pub approval_pauses : List (String × String)
approval_pauses =
    ("approval_expired", "期限が切れた。再開すると計画から作り直して再投稿する")
    ∷ ("approval_post_mismatch", "投稿が送った文と一致しない。再開しても続かない。停止して起票し直す")
    ∷ ("approval_tampered", "課題かコメントが変えられた。再開しても続かない。停止して起票し直す")
    ∷ ("approval_no_approver", "承認できる人がいない。停止して起票し直す")
    ∷ ("approval_config_mismatch", "この依頼は今の設定では承認できない。停止して起票し直す")
    ∷ []

-- The reason whose text the record has, `""` for none.
unfoldable pub reason_of_text : List (String × String) → String → String
reason_of_text [] output = ""
reason_of_text ((reason, text) ∷ pauses) output =
    if output == text then reason else reason_of_text pauses output

-- `ApprovalPaused`: the latest record is one of the runtime's approval pauses.
unfoldable pub approval_paused : State → String
unfolding reason_of_text
approval_paused s = elim (last? s.history) [
  | none ↦ ""
  | some r ↦
      if not (r.role == "router") || (not (r.speaker == "runtime") || not (r.error == ""))
      then ""
      else reason_of_text approval_pauses r.output
]

-- `ApprovalPauseText`.
unfoldable pub approval_pause_text : String → String
approval_pause_text reason = lookup_or "" reason approval_pauses

-- `PauseApproval`: an unknown reason, or the pause that the history ends in, changes nothing.
unfoldable pub pause_approval : State → String → Time → State
unfolding approval_paused approval_pause_text
pause_approval s reason now =
    if (approval_pause_text reason == "") || (approval_paused s == reason) then s else record s {
      awaiting_approval = none;
      history =
          s.history
          ++ record no_result {
            role = "router";
            speaker = "runtime";
            output = approval_pause_text reason;
            finished_at = now;
          }
            ∷ [];
    }
