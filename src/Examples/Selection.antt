-- ===== src/Examples/Selection.antt =====
-- The theorem about the choice of a model, at a gateway that lists a model without its publisher.
use lass_das.Base.{
  String, ◌==◌, ◌<>◌, true, false, Option, none, some, List, [], ◌∷◌, ◌≡◌, ◌⊎◌, refl, contains_text,
  lookup, trim_space,
}
use lass_das.Engine.Selection.{
  SelectionConfig, CatalogModel, GatewayModel, fixed_model, invocation_prefix, cons_author,
  cut_slash, author_of, name_of, has_author, is_excluded, is_eligible, read_catalog, choices_of,
  add_id,
}
use lass_das.Engine.Selection.Attempt.{
  Inputs, chosen, named, serve_models, match_owner, listed_or_owned, endpoint, served_choices,
  with_served, with_list, read_gateway, invoked_by, test_choice, ask_judge, choose_served,
  select_models, select_rows, select_with, or_alternative, choose,
}
use lass_das.Engine.Selection.Routes.{IsChoice}
use lass_das.Engine.Selection.Choose.{choose-IsChoice}

abbrev selection : SelectionConfig
selection = record {
  judge_url = "https://judge";
  judge_model = "";
  judge_key_env = "";
  has_fallback = true;
  authors = "z-ai" ∷ "acme" ∷ [];
  fixed = " ";
  gateway = some (record { models_url = "https://gateway"; key_env = "KEY"; prefix = "gw/" });
}

abbrev model : String → CatalogModel
model id = record { id = id; supported = "tools" ∷ []; output = "text" ∷ []; summary = id }

abbrev catalog : List (Option CatalogModel)
catalog = some (model "z-ai/glm") ∷ some (model "acme/one") ∷ some (model "other/two") ∷ []

abbrev listed : List (Option GatewayModel)
listed =
    some (record { id = "gw/glm"; owned_by = "z-ai" })
    ∷ some (record { id = "gw/acme/one"; owned_by = "" })
    ∷ []

-- The judge cannot be asked; the chat service takes the first choice.
abbrev unanswered : Inputs
unanswered = record { catalog = some catalog; list = some listed; judge = λ choices. none }

abbrev answered : Inputs
answered = record unanswered { judge = λ choices. some "z-ai/glm" }

-- All ids here are in lower case.
abbrev lower : String → String
lower text = text

chosen_glm :
    choose lower ◌==◌ selection false unanswered answered ("acme/one" ∷ [])
    ≡ chosen "z-ai/glm" "gw/glm"
unfolding choose fixed_model trim_space ◌==◌ or_alternative select_with select_rows read_catalog
    select_models choices_of is_eligible has_author cut_slash cons_author author_of is_excluded
    contains_text read_gateway with_list serve_models with_served choose_served served_choices
    endpoint listed_or_owned lookup match_owner name_of named add_id ask_judge test_choice
    invoked_by
chosen_glm = refl

choose-IsChoice_example :
    ((fixed_model selection ≡ "z-ai/glm")
      × (invocation_prefix selection <> fixed_model selection ≡ "gw/glm"))
    ⊎ (IsChoice lower ◌==◌ selection unanswered ("acme/one" ∷ []) "z-ai/glm" "gw/glm"
        ⊎ IsChoice lower ◌==◌ selection answered ("acme/one" ∷ []) "z-ai/glm" "gw/glm")
choose-IsChoice_example =
    choose-IsChoice lower ◌==◌ selection false unanswered answered ("acme/one" ∷ []) "z-ai/glm"
      "gw/glm" chosen_glm
