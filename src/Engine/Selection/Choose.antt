-- ===== src/Engine/Selection/Choose.antt =====
-- rewrite/cmd/engine/selection.go, choose: which models can be chosen.
use lass_das.Base.{
  String, ◌==◌, ◌<>◌, Bool, true, not, ◌&&◌, ◌||◌, Option, none, some, List, [], ◌∷◌, leb, length,
  is_some, lookup, trim_space, ◌≡◌, ◌⊎◌, inl, inr, refl, sym, ◌∙◌, subst, In, Bool-cases,
}
use lass_das.Engine.Selection.{
  SelectionConfig, GatewayConfig, CatalogModel, Choices, Served, fixed_model, invocation_prefix,
  is_eligible, read_catalog, choices_of,
}
use lass_das.Engine.Selection.Attempt.{
  Inputs, Selected, chosen, failed, endpoint, served_choices, read_gateway, invoked_by, test_choice,
  ask_judge, choose_served, select_models, select_rows, select_with, or_alternative, choose,
}
use lass_das.Engine.Selection.Catalog.{choices_of-eligible, read_catalog-In, served_choices-served}
use lass_das.Engine.Selection.Routes.{IsChoice, Route, eligible-IsOffered, endpoint-Route}

module _ (lower : String → String) (equal_fold : String → String → Bool) where
  invoked_by-chosen :
      (model : String) (found : Option String) (m id : String)
      → is_some found ≡ true
      → invoked_by lower equal_fold model found ≡ chosen m id
      → (model ≡ m) × (found ≡ some id)
  unfolding invoked_by
  invoked_by-chosen model none m id s e = cc
  invoked_by-chosen model (some i) m id s e = (cc, cc)

  -- What an attempt chooses was offered, and is invoked by its endpoint.
  test_choice-chosen :
      (authors : List String) (models : List CatalogModel)
      (gateway : Option (GatewayConfig × Served))
      → (choices : Choices) (answer : Option String) (m id : String)
      → test_choice lower equal_fold authors models gateway
          (served_choices lower equal_fold authors models gateway choices)
          answer
        ≡ chosen m id
      → (is_some (lookup m choices) ≡ true)
        × (endpoint lower equal_fold authors models gateway m ≡ some id)
  unfolding test_choice
  test_choice-chosen authors models gateway choices none m id e = cc
  test_choice-chosen authors models gateway choices (some model) m id e =
      elim (Bool-cases (is_some (lookup model served))) [
        | inr other ↦ cc (rw other at e)
        | inl offered ↦
            let (listed, is_served) =
              served_choices-served lower equal_fold authors models gateway choices model offered in
            let (same, found) =
              invoked_by-chosen model (endpoint lower equal_fold authors models gateway model) m id
                is_served (rw offered at e) in
            (
              subst (λ k. is_some (lookup k choices) ≡ true) same listed,
              subst (λ k. endpoint lower equal_fold authors models gateway k ≡ some id) same found,
            )
      ]
    where
      served : Choices
      served = served_choices lower equal_fold authors models gateway choices

  ask_judge-test :
      (authors : List String) (models : List CatalogModel)
      (gateway : Option (GatewayConfig × Served))
      → (judge : Choices → Option String) (choices : Choices) (m id : String)
      → ask_judge lower equal_fold authors models gateway judge choices ≡ chosen m id
      → test_choice lower equal_fold authors models gateway choices (judge choices) ≡ chosen m id
  unfolding ask_judge
  ask_judge-test authors models gateway judge [] m id e = cc
  ask_judge-test authors models gateway judge (c ∷ choices) m id e = e

  attempt-IsChoice :
      (s : SelectionConfig) (x : Inputs) (selected : List String) (model id : String)
      → (rows : List (Option CatalogModel)) (models : List CatalogModel)
      → (gateway : Option (Option (GatewayConfig × Served))) → x.catalog ≡ some rows
      → read_catalog rows ≡ some models
      → read_gateway lower equal_fold s.gateway x.list ≡ gateway
      → choose_served lower equal_fold s.authors models gateway x.judge
          (choices_of s.authors selected [] models)
        ≡ chosen model id
      → IsChoice lower equal_fold s x selected model id
  unfolding choose_served lookup
  attempt-IsChoice s x selected model id rows models none c r g e = cc
  attempt-IsChoice s x selected model id rows models (some gateway) c r g e =
      let (listed, invoked) =
        test_choice-chosen s.authors models gateway choices (x.judge served) model id
          (ask_judge-test s.authors models gateway x.judge served model id e) in
      from_catalog invoked (choices_of-eligible s.authors selected [] models model listed)
    where
      choices : Choices
      choices = choices_of s.authors selected [] models

      served : Choices
      served = served_choices lower equal_fold s.authors models gateway choices

      from_catalog :
          endpoint lower equal_fold s.authors models gateway model ≡ some id
          → (is_some (lookup {V = String} model []) ≡ true)
            ⊎ ((m : CatalogModel) × In m models
                × (m.id ≡ model)
                × (is_eligible s.authors selected m ≡ true))
          → IsChoice lower equal_fold s x selected model id
      from_catalog invoked (inl h) = cc
      from_catalog invoked (inr (m, i, same, h)) =
          let (offered, has_name) = eligible-IsOffered lower equal_fold s selected m h in
          record {
            rows = rows;
            read = c;
            entry = m;
            listed = read_catalog-In rows models m r i;
            named_so = same;
            offered = offered;
            route =
                subst (λ k. Route lower equal_fold s rows s.gateway x k id) same
                  (endpoint-Route lower equal_fold s rows models m x s.gateway gateway id r i
                    has_name g
                    (subst (λ k. endpoint lower equal_fold s.authors models gateway k ≡ some id)
                      (sym same) invoked));
          }

  models-IsChoice :
      (s : SelectionConfig) (x : Inputs) (selected : List String) (model id : String)
      → (rows : List (Option CatalogModel)) (models : Option (List CatalogModel))
      → x.catalog ≡ some rows
      → read_catalog rows ≡ models
      → select_models lower equal_fold s x selected models ≡ chosen model id
      → IsChoice lower equal_fold s x selected model id
  unfolding select_models
  models-IsChoice s x selected model id rows none c r e = cc
  models-IsChoice s x selected model id rows (some models) c r e =
      attempt-IsChoice s x selected model id rows models
        (read_gateway lower equal_fold s.gateway x.list) c r refl e

  rows-IsChoice :
      (s : SelectionConfig) (x : Inputs) (selected : List String) (model id : String)
      → (rows : Option (List (Option CatalogModel))) → x.catalog ≡ rows
      → select_rows lower equal_fold s x selected rows ≡ chosen model id
      → IsChoice lower equal_fold s x selected model id
  unfolding select_rows
  rows-IsChoice s x selected model id none c e = cc
  rows-IsChoice s x selected model id (some rows) c e =
      models-IsChoice s x selected model id rows (read_catalog rows) c refl e

  select_with-IsChoice :
      (s : SelectionConfig) (x : Inputs) (selected : List String) (model id : String)
      → select_with lower equal_fold s x selected ≡ chosen model id
      → IsChoice lower equal_fold s x selected model id
  unfolding select_with
  select_with-IsChoice s x selected model id e = elim (Bool-cases (leb (length s.authors) 0)) [
    | inl no_one ↦ cc (rw no_one at e)
    | inr some_one ↦ rows-IsChoice s x selected model id x.catalog refl (rw some_one at e)
  ]

  or_alternative-IsChoice :
      (s : SelectionConfig) (is_over : Bool) (first alternative : Inputs) (selected : List String)
      (model id : String)
      → (r : Selected) → select_with lower equal_fold s first selected ≡ r
      → or_alternative lower equal_fold s is_over alternative selected r ≡ chosen model id
      → IsChoice lower equal_fold s first selected model id
        ⊎ IsChoice lower equal_fold s alternative selected model id
  unfolding or_alternative
  or_alternative-IsChoice s is_over first alternative selected model id (chosen m i) r e =
      inl (select_with-IsChoice s first selected model id (r ∙ e))
  or_alternative-IsChoice s is_over first alternative selected model id (failed why) r e =
      elim (Bool-cases (is_over || not s.has_fallback)) [
        | inl done ↦ cc (rw done at e)
        | inr again ↦ inr (select_with-IsChoice s alternative selected model id (rw again at e))
      ]

  -- A model that choose names is the operator's fixed one, or one that the catalog of an attempt lists: of a configured
  -- publisher, by none of those that the peers were given, with tools and text. With a gateway it is invoked
  -- as the gateway lists it, with its publisher or, where no other model can be meant, without.
  pub choose-IsChoice :
      (s : SelectionConfig) (is_over : Bool) (first alternative : Inputs) (selected : List String)
      → (model id : String)
      → choose lower equal_fold s is_over first alternative selected ≡ chosen model id
      → ((fixed_model s ≡ model) × (invocation_prefix s <> fixed_model s ≡ id))
        ⊎ (IsChoice lower equal_fold s first selected model id
            ⊎ IsChoice lower equal_fold s alternative selected model id)
  unfolding choose
  choose-IsChoice s is_over first alternative selected model id e =
      elim (Bool-cases (fixed_model s == "")) [
        | inr fixed ↦ let named = rw fixed at e in inl (cc (named), cc (named))
        | inl free ↦ elim (Bool-cases ((trim_space s.judge_url == "") && s.has_fallback)) [
          | inl chat ↦
              inr
                (inr (select_with-IsChoice s alternative selected model id (rw (free, chat) at e)))
          | inr judge ↦ inr (
              or_alternative-IsChoice s is_over first alternative selected model id
                (select_with lower equal_fold s first selected) refl (rw (free, judge) at e))
        ]
      ]
