-- ===== src/Examples/Graph.antt =====
-- The theorem about connected roles, at three of them.
use lass_das.Base.{
  ◌==◌, true, false, not, ◌&&◌, none, some, [], ◌∷◌, ◌≡◌, refl, inr, All, is_empty, has_key,
  lookup_or, pos,
}
use lass_das.Chain.Types.{Workflow, State}
use lass_das.Chain.Offers.{next_actions}
use lass_das.Chain.Workflow.Graph.{
  validate, is_connected, check_targets, check_source, check_section, validate_graph, check_limits,
}
use lass_das.Chain.Workflow.Connected.{IsTarget, next_actions-IsTarget}
use lass_das.Examples.Sample.{roles, new_state}

abbrev connections : Workflow
connections = record {
  start = "work" ∷ [];
  after = ("work", "verify" ∷ []) ∷ ("verify", "done" ∷ "work" ∷ []) ∷ [];
  recover = ("work", "work" ∷ []) ∷ ("verify", "work" ∷ []) ∷ [];
  stages = [];
  question = "";
  entrance_rework_limit = pos 0;
  confirmation_rework_limit = pos 0;
  launch_limit = [];
  environment_pause_limit = pos 0;
  preview = none;
}

valid_graph : validate roles connections ≡ none
unfolding validate validate_graph check_source check_targets check_section is_connected ◌==◌ has_key
    lookup_or check_limits
valid_graph = refl

abbrev verified : State
verified = record new_state { workflow = some connections; step = "verify" }

verify_connected : is_connected connections "verify" ≡ true
unfolding is_connected lookup_or ◌==◌
verify_connected = refl

next_actions-IsTarget_example :
    (is_empty (next_actions verified) ≡ false)
    × All (IsTarget roles connections (not ("verify" == "") && true)) (next_actions verified)
next_actions-IsTarget_example =
    next_actions-IsTarget roles connections verified valid_graph refl refl (inr verify_connected)
