-- ===== src/Engine/Selection/Attempt.antt =====
-- rewrite/cmd/engine/selection.go, endpoints, selectWith and choose, and models.go, gatewayModels.
use lass_das.Base.{
  String, ◌==◌, ◌<>◌, Bool, not, ◌&&◌, ◌||◌, Option, none, some, List, [], ◌∷◌, if◌then◌else◌, leb,
  length, any, is_some, lookup, trim_space,
}
use lass_das.Engine.Selection.{
  GatewayConfig, SelectionConfig, fixed_model, invocation_prefix, is_blank, CatalogModel,
  GatewayModel, Choices, Served, author_of, name_of, has_author, read_catalog, choices_of, add_id,
}

pub data Failure : Type 0 where
  no_authors no_catalog unread_catalog no_gateway no_choice no_answer not_offered : Failure

pub data Selected : Type 0 where
  chosen : String → String → Selected
  failed : Failure → Selected

-- What one attempt meets: the catalog, the gateway's list, and the judge's choice.
pub record Inputs : Type 0 where
  pub catalog : Option (List (Option CatalogModel))
  pub list : Option (List (Option GatewayModel))
  pub judge : Choices → Option String

module _ (lower : String → String) (equal_fold : String → String → Bool) where
  -- `named[name]`: the ids that end in a name, in lower case.
  unfoldable pub named : String → List CatalogModel → List String
  unfolding add_id has_author name_of
  named name [] = []
  named name (m ∷ models) =
      let rest = named name models in
      if has_author m.id && (lower (name_of m.id) == name) then add_id (lower m.id) rest else rest

  -- `gatewayModels`, what it makes of the list: the first entry for an id counts.
  unfoldable pub serve_models : List (Option GatewayModel) → Option Served
  serve_models [] = some []
  serve_models (none ∷ rows) = none
  serve_models (some m ∷ rows) =
      let rest = serve_models rows in
      elim rest [ none ↦ none | some served ↦ some ((lower m.id, m) ∷ served) ]

  -- An entry that lists the name of a model without its publisher.
  unfoldable pub match_owner :
      List String → List CatalogModel → String → Option GatewayModel → Option String
  unfolding named name_of author_of
  match_owner authors models id none = none
  match_owner authors models id (some listed) =
      let owner = trim_space listed.owned_by in
      if any (λ configured. equal_fold configured owner) authors
      then (if equal_fold owner (author_of id) then some listed.id else none)
      else if leb (length (named (lower (name_of id)) models)) 1
          && leb 1 (length (named (lower (name_of id)) models))
      then some listed.id
      else none

  -- An entry that lists the model with its publisher comes first.
  unfoldable pub listed_or_owned :
      List String
      → List CatalogModel
      → GatewayConfig
      → Served
      → String
      → Option GatewayModel
      → Option String
  unfolding match_owner name_of
  listed_or_owned authors models g served id (some listed) = some listed.id
  listed_or_owned authors models g served id none =
      match_owner authors models id (lookup (lower g.prefix <> lower (name_of id)) served)

  -- `endpoints`, for one id.
  unfoldable pub endpoint :
      List String → List CatalogModel → Option (GatewayConfig × Served) → String → Option String
  unfolding listed_or_owned
  endpoint authors models none id = some id
  endpoint authors models (some (g, served)) id =
      listed_or_owned authors models g served id (lookup (lower g.prefix <> lower id) served)

  -- The choices that are served.
  unfoldable pub served_choices :
      List String → List CatalogModel → Option (GatewayConfig × Served) → Choices → Choices
  unfolding endpoint
  served_choices authors models gateway [] = []
  served_choices authors models gateway ((id, summary) ∷ choices) =
      let rest = served_choices authors models gateway choices in
      if is_some (endpoint authors models gateway id) then (id, summary) ∷ rest else rest

  unfoldable pub with_served :
      GatewayConfig → Option Served → Option (Option (GatewayConfig × Served))
  with_served g none = none
  with_served g (some served) = some (some (g, served))

  unfoldable pub with_list :
      GatewayConfig → Option (List (Option GatewayModel)) → Option (Option (GatewayConfig × Served))
  unfolding serve_models with_served
  with_list g none = none
  with_list g (some rows) = with_served g (serve_models rows)

  -- The gateway's list, where a gateway is configured; none where it cannot be read.
  unfoldable pub read_gateway :
      Option GatewayConfig
      → Option (List (Option GatewayModel))
      → Option (Option (GatewayConfig × Served))
  unfolding with_list
  read_gateway none list = some none
  read_gateway (some g) list = with_list g list

  -- `endpoints[model]`, with the zero value where it is missing.
  unfoldable pub invoked_by : String → Option String → Selected
  invoked_by model none = chosen model ""
  invoked_by model (some id) = chosen model id

  -- The choice of the judge is tested.
  unfoldable pub test_choice :
      List String
      → List CatalogModel
      → Option (GatewayConfig × Served)
      → Choices
      → Option String
      → Selected
  unfolding endpoint invoked_by
  test_choice authors models gateway choices none = failed no_answer
  test_choice authors models gateway choices (some model) =
      if is_some (lookup model choices)
      then invoked_by model (endpoint authors models gateway model)
      else failed not_offered

  unfoldable pub ask_judge :
      List String
      → List CatalogModel
      → Option (GatewayConfig × Served)
      → (Choices → Option String)
      → Choices
      → Selected
  unfolding test_choice
  ask_judge authors models gateway judge [] = failed no_choice
  ask_judge authors models gateway judge (c ∷ choices) =
      test_choice authors models gateway (c ∷ choices) (judge (c ∷ choices))

  unfoldable pub choose_served :
      List String
      → List CatalogModel
      → Option (Option (GatewayConfig × Served))
      → (Choices → Option String)
      → Choices
      → Selected
  unfolding served_choices ask_judge
  choose_served authors models none judge choices = failed no_gateway
  choose_served authors models (some gateway) judge choices =
      ask_judge authors models gateway judge (served_choices authors models gateway choices)

  unfoldable pub select_models :
      SelectionConfig → Inputs → List String → Option (List CatalogModel) → Selected
  unfolding choices_of read_gateway choose_served
  select_models s x selected none = failed unread_catalog
  select_models s x selected (some models) =
      choose_served s.authors models (read_gateway s.gateway x.list) x.judge
        (choices_of s.authors selected [] models)

  unfoldable pub select_rows :
      SelectionConfig → Inputs → List String → Option (List (Option CatalogModel)) → Selected
  unfolding read_catalog select_models
  select_rows s x selected none = failed no_catalog
  select_rows s x selected (some rows) = select_models s x selected (read_catalog rows)

  -- `selectWith`.
  unfoldable pub select_with : SelectionConfig → Inputs → List String → Selected
  unfolding select_rows
  select_with s x selected =
      if leb (length s.authors) 0 then failed no_authors else select_rows s x selected x.catalog

  -- Whether the alternative is asked.
  unfoldable pub or_alternative :
      SelectionConfig → Bool → Inputs → List String → Selected → Selected
  unfolding select_with
  or_alternative s is_over alternative selected (chosen model id) = chosen model id
  or_alternative s is_over alternative selected (failed why) =
      if is_over || not s.has_fallback then failed why else select_with s alternative selected

  -- `choose`. `is_over` is the end of the context behind the first attempt.
  unfoldable pub choose : SelectionConfig → Bool → Inputs → Inputs → List String → Selected
  unfolding fixed_model invocation_prefix select_with or_alternative
  choose s is_over first alternative selected =
      if not (fixed_model s == "")
      then chosen (fixed_model s) (invocation_prefix s <> fixed_model s)
      else if is_blank s.judge_url && s.has_fallback
      then select_with s alternative selected
      else or_alternative s is_over alternative selected (select_with s first selected)
