-- ===== src/Chain/Instructions.antt =====
-- stages.go, stageInstruction: what the runtime tells a stage or the question role.
use lass_das.Base.{
  ◌<>◌, ℕ, suc, String, ◌==◌, decimal, not, ◌&&◌, ◌||◌, Option, none, some, List, [], ◌∷◌,
  if◌then◌else◌, ltb, length, drop, get_elem?, last?,
}
use lass_das.Chain.Types.{Stage, State, command_stage}
use lass_das.Chain.Runs.{
  stage_runs, stage_at, stages_of, question_of, confirmation_decision, asks_every_change,
}
use lass_das.Chain.Actions.{environment_pause_open}
use lass_das.Chain.Endings.{Ending, last_ending}
use lass_das.Chain.Endings.Words.{ending_instruction}

abbrev pub confirmation_question_instruction : String
confirmation_question_instruction =
    "The decision after the stage that confirms the change chose to ask the requester before the change is delivered. Post one comment that shows the requester what the change does to how they operate the product, to its screens or to its public API, as that stage's report and the change itself show it, and ask them to choose: to deliver it as it is, to name what to change, or not to deliver it. Nothing is delivered before their reply; say so. Ask about this change only. Whatever this launch posts, the request then waits for the requester's comment.\n"

abbrev pub every_change_question_instruction : String
every_change_question_instruction =
    "The decision after the stage that confirms the change chose to ask the requester before the change is delivered; in this run the requester sees every change, whatever it alters. Post one comment that shows the requester what the change does, as that stage's report and the change itself show it: where the runtime gives an address at which the change can be seen, point the requester to it; otherwise describe the change in words. Ask them to choose: to deliver it as it is, to name what to change, or not to deliver it. Nothing is delivered before their reply; say so. Ask about this change only. Whatever this launch posts, the request then waits for the requester's comment.\n"

abbrev environment_pause_stage_instruction : String
environment_pause_stage_instruction =
    "The configured decision model reads your requirements report and chooses to pause this request before anything is implemented, for the operator to enlarge or prepare the execution environment, or the next stage. When you find the environment falls short, write the missing or insufficient fact and what the operator would have to prepare in one or two sentences, in a paragraph of their own before anything else in the report: if the request pauses, the requester is shown the report from that paragraph on, up to 200 characters. Use ordinary prose; the runtime does not grade its wording. A later command stage proves completed work.\n"

abbrev entrance_stage_instruction : String
entrance_stage_instruction =
    "The configured decision model reads your requirements report and chooses another requirements pass, a question or the next stage. Use ordinary prose; the runtime does not grade its wording. A later command stage proves completed work.\n"

abbrev confirmation_stage_instruction : String → String
confirmation_stage_instruction next =
    "Read the change actually made in the checkout before it is delivered: what Git lists as changed, the diff, new files, and commits the integration branch does not have. Read the settled requirements and the project's knowledge. Say in ordinary prose whether the change alters how a person operates the product, what a screen shows or does, or the public API. The project's knowledge defines the public API; where it does not, take the entry points used from outside: HTTP routes, command arguments and options and the output other programs read, exported functions and types, and configuration keys and file formats that others read. Name the material you read and what you could not read. A change too long to read whole is not an internal one: say what you could not read. When you cannot tell, say so. When none of the three changes, say that the requester's confirmation is not needed and why, in a line such as 依頼者の確認: なし. A requester's reply in the record covers only the change it was given about. The configured decision model reads your report and chooses the first stage again, a question to the requester, or the next stage ("
    <> (next
        <> "); a question holds the request until the requester comments. Use ordinary prose; the runtime does not grade its wording.\n")

abbrev every_change_stage_instruction : String → String
every_change_stage_instruction next =
    "Read the change actually made in the checkout before it is delivered: what Git lists as changed, the diff, new files, and commits the integration branch does not have. Read the settled requirements and the project's knowledge. Say in ordinary prose what the change does: whether it alters how a person operates the product, what a screen shows or does, or the public API, and what it does when it alters none of them. Name the material you read and what you could not read; when you cannot tell, say so. In this run the requester sees every change before it is delivered, so do not say that their confirmation is not needed: say what the question to them should show. A requester's reply in the record covers only the change it was given about. The configured decision model reads your report and chooses the first stage again or a question to the requester; the next stage ("
    <> (next
        <> ") is offered only after the requester has replied about this same change. A question holds the request until the requester comments. Use ordinary prose; the runtime does not grade its wording.\n")

abbrev command_instruction : String
command_instruction =
    "The runtime launches this stage's configured commands and records what they returned. Their exit status is the only thing that satisfies this stage.\n"

first_command : List Stage → Option String
first_command [] = none
first_command (stage ∷ later) =
    if stage.kind == command_stage then some stage.name else first_command later

unfoldable pub following_command : List Stage → ℕ → Option String
unfolding first_command
following_command stages index = first_command (drop (suc index) stages)

model_instruction : List Stage → ℕ → String
unfolding following_command
model_instruction stages index =
    "Nothing you write is read, decoded or graded, and saying the work is done advances nothing. "
    <> (elim (following_command stages index) [
      | none ↦ "A later command stage's result is what carries this work on.\n"
      | some follow ↦
          "The "
          <> (follow
              <> " stage runs afterwards, and what its commands return is what carries this work on.\n")
    ])

-- `stages[index+1].Name`; the source indexes it of a stage that is not the last.
next_name : List Stage → ℕ → String
next_name stages index = elim (get_elem? stages (suc index)) [ none ↦ "" | some stage ↦ stage.name ]

-- The part about the stage itself.
unfoldable pub role_instruction : State → Stage → ℕ → String
unfolding model_instruction next_name
role_instruction s stage index =
    let stages = stages_of s in
    let asks = not (question_of s == "") in
    if stage.kind == command_stage
    then command_instruction
    else if not (ltb 0 index) && asks
    then entrance_stage_instruction
    else if not (ltb 0 index) && environment_pause_open s
    then environment_pause_stage_instruction
    else if stage.confirm && (asks && stage.always_ask)
    then every_change_stage_instruction (next_name stages index)
    else if stage.confirm && asks
    then confirmation_stage_instruction (next_name stages index)
    else model_instruction stages index

summary_hint : State → Ending → String
summary_hint s e = elim (stage_at (stages_of s) e.role) [
  | none ↦ ""
  | some (failed, _) ↦ elim failed.approval [
    | none ↦ ""
    | some a ↦
        " ("
        <> (a.summary
            <> " が無い・空・2,000 文字超・``` または ~~~ を含む・行頭の空白やタブを除くと # で始まる行がある・= や - による見出しの下線がある・空白を除いて同じ * / _ / - が 3 個以上並ぶだけの行がある、のどれか。見出しや code fence、区切り線の無い平文で書き直す) (1 行 200 文字を超えると別の理由『量や形式』になる)")
  ]
]

failed_command : State → String
failed_command s = elim (last? (stage_runs s)) [
  | none ↦ ""
  | some run ↦ if run.satisfied then "" else elim (stage_at (stages_of s) run.role) [
    | none ↦ ""
    | some (failed, _) ↦
        if failed.kind == command_stage
        then "The "
          <> (failed.name
              <> " stage did not exit 0. What its commands returned is in the record below; this run has no failing end state, so it is tried again after you.\n")
        else ""
  ]
]

-- The part about a refused approval or a failed command before.
unfoldable pub earlier_failure : State → String
unfolding summary_hint failed_command
earlier_failure s = elim (last_ending s) [
  | none ↦ failed_command s
  | some e ↦
      if e.approval_failure == ""
      then failed_command s
      else e.role
        <> (": "
            <> (e.error
                <> ((if e.approval_failure == "summary_unreadable" then summary_hint s e else "")
                    <> "\n")))
]

earlier_ending : State → String → String
earlier_ending s name = elim (last_ending s) [
  | none ↦ ""
  | some e ↦ if e.interrupted || (e.role == name) then ending_instruction e else ""
]

unfoldable pub stage_instruction : State → String → String
unfolding role_instruction earlier_failure earlier_ending
stage_instruction s name = elim (stage_at (stages_of s) name) [
  | none ↦
      if not (name == "") && ((name == question_of s) && confirmation_decision s)
      then (if asks_every_change s
          then every_change_question_instruction
          else confirmation_question_instruction)
      else ""
  | some (stage, index) ↦
      "Stage "
      <> (decimal (suc index)
          <> (" of "
              <> (decimal (length (stages_of s))
                  <> (" in the configured run: "
                      <> (stage.name
                          <> (".\n"
                              <> (role_instruction s stage index
                                  <> (earlier_failure s <> earlier_ending s name))))))))
]
