-- ===== src/Chain/Workflow/Clone.antt =====
-- workflow.go, clone: the copy of the configured workflow that an accepted request keeps.
use lass_das.Base.{Option, none, some, List, [], ◌∷◌}
use lass_das.Chain.Types.{Stage, Approval, Preview, Workflow}

-- The run's copy leaves out who may approve.
clone_approval : Option Approval → Option Approval
clone_approval none = none
clone_approval (some a) = some (record a { approver_user_ids = [] })

unfoldable pub clone_stages : List Stage → List Stage
unfolding clone_approval
clone_stages [] = []
clone_stages (stage ∷ stages) =
    record stage { approval = clone_approval stage.approval } ∷ clone_stages stages

-- The run launches only the role that puts the page up.
clone_preview : Option Preview → Option Preview
clone_preview none = none
clone_preview (some p) = some (record { up = p.up; down = ""; hold_hours = none })

unfoldable pub clone : Workflow → Workflow
unfolding clone_stages clone_preview
clone w = record w { stages = clone_stages w.stages; preview = clone_preview w.preview }
