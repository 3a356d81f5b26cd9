-- ===== src/Engine/Selection/Routes.antt =====
-- rewrite/cmd/engine/selection.go, endpoints: how a model that is chosen is invoked.
use lass_das.Base.{
  String, ◌==◌, ◌<>◌, ==_refl, Bool, true, false, ◌&&◌, Option, none, some, List, leb, length, any,
  lookup, contains_text, trim_space, ◌≡◌, ◌⊎◌, inl, inr, refl, sym, subst, In, Bool-cases,
  Option-cases, arith, some_inj, none-ne-some,
}
use lass_das.Engine.Selection.{
  SelectionConfig, GatewayConfig, GatewayModel, CatalogModel, Served, author_of, name_of,
  has_author, is_eligible, is_excluded, read_catalog,
}
use lass_das.Engine.Selection.Attempt.{
  Inputs, named, serve_models, match_owner, endpoint, listed_or_owned, with_served, with_list,
  read_gateway,
}
use lass_das.Engine.Selection.Catalog.{In-read_catalog, named-known, one_text, serve_models-listed}

module _ (lower : String → String) (equal_fold : String → String → Bool) where
  -- An entry of the catalog that may be chosen.
  pub record IsOffered (s : SelectionConfig) (selected : List String) (m : CatalogModel)
      : Type 0 where
    pub publisher : contains_text (author_of m.id) s.authors ≡ true
    pub independent : any (λ model. author_of model == author_of m.id) selected ≡ false
    pub tools : contains_text "tools" m.supported ≡ true
    pub text : contains_text "text" m.output ≡ true

  -- An entry listed without its publisher: its owner is a configured publisher and this one, or is not
  -- configured and no other id of the catalog ends in the name.
  abbrev pub IsOwned : SelectionConfig → List (Option CatalogModel) → String → GatewayModel → Type 0
  IsOwned s rows model entry =
      ((any (λ configured. equal_fold configured (trim_space entry.owned_by)) s.authors ≡ true)
        × (equal_fold (trim_space entry.owned_by) (author_of model) ≡ true))
      ⊎ ((any (λ configured. equal_fold configured (trim_space entry.owned_by)) s.authors ≡ false)
          × ((n : CatalogModel)
              → In (some n) rows
              → has_author n.id ≡ true
              → lower (name_of n.id) ≡ lower (name_of model)
              → lower n.id ≡ lower model))

  -- How a model is invoked: by its id, or as the gateway lists it, with its publisher or without.
  abbrev pub Route :
      SelectionConfig
      → List (Option CatalogModel)
      → Option GatewayConfig
      → Inputs
      → String
      → String
      → Type 0
  Route s rows none x model id = model ≡ id
  Route s rows (some g) x model id =
      (list : List (Option GatewayModel)) × (entry : GatewayModel) × (x.list ≡ some list)
      × In (some entry) list
      × (entry.id ≡ id)
      × ((lower entry.id ≡ lower g.prefix <> lower model)
          ⊎ ((lower entry.id ≡ lower g.prefix <> lower (name_of model))
              × IsOwned s rows model entry))

  -- What an attempt may choose.
  pub record IsChoice (s : SelectionConfig) (x : Inputs) (selected : List String)
      (model id : String) : Type 0 where
    pub rows : List (Option CatalogModel)
    pub read : x.catalog ≡ some rows
    pub entry : CatalogModel
    pub listed : In (some entry) rows
    pub named_so : entry.id ≡ model
    pub offered : IsOffered s selected entry
    pub route : Route s rows s.gateway x model id

  pub eligible-IsOffered :
      (s : SelectionConfig) (selected : List String) (m : CatalogModel)
      → is_eligible s.authors selected m ≡ true
      → IsOffered s selected m × (has_author m.id ≡ true)
  unfolding is_eligible is_excluded
  eligible-IsOffered s selected m h = (
    record {
      publisher = ground (arith, h);
      independent = ground (arith, h);
      tools = ground (arith, h);
      text = ground (arith, h);
    },
    ground (arith, h),
  )

  -- The name alone names one model of the catalog.
  owned_alone :
      (rows : List (Option CatalogModel)) (models : List CatalogModel) (m : CatalogModel)
      → read_catalog rows ≡ some models
      → In m models
      → has_author m.id ≡ true
      → leb (length (named lower equal_fold (lower (name_of m.id)) models)) 1 ≡ true
      → (n : CatalogModel) → In (some n) rows
      → has_author n.id ≡ true
      → lower (name_of n.id) ≡ lower (name_of m.id)
      → lower n.id ≡ lower m.id
  owned_alone rows models m r i a one n j b same =
      one_text lower equal_fold (named lower equal_fold (lower (name_of m.id)) models) (lower n.id)
        (lower m.id) one
        (named-known lower equal_fold (lower (name_of m.id)) models n
          (In-read_catalog rows models n r j) (rw (b, same, ==_refl (lower (name_of m.id))) refl))
        (named-known lower equal_fold (lower (name_of m.id)) models m i
          (rw (a, ==_refl (lower (name_of m.id))) refl))

  match_owner-IsOwned :
      (s : SelectionConfig) (rows : List (Option CatalogModel)) (models : List CatalogModel)
      (m : CatalogModel)
      → (entry : GatewayModel) (id : String) → read_catalog rows ≡ some models
      → In m models
      → has_author m.id ≡ true
      → match_owner lower equal_fold s.authors models m.id (some entry) ≡ some id
      → (entry.id ≡ id) × IsOwned s rows m.id entry
  unfolding match_owner
  match_owner-IsOwned s rows models m entry id r i a e =
      elim (Bool-cases
        (any (λ configured. equal_fold configured (trim_space entry.owned_by)) s.authors)) [
          | inl configured ↦
              elim (Bool-cases (equal_fold (trim_space entry.owned_by) (author_of m.id))) [
                | inl own ↦ (some_inj (rw (configured, own) at e), inl (configured, own))
                | inr other ↦ absurd (none-ne-some (rw (configured, other) at e))
              ]
          | inr unknown ↦ elim (Bool-cases (leb (length names) 1 && leb 1 (length names))) [
            | inr several ↦ absurd (none-ne-some (rw (unknown, several) at e))
            | inl one ↦ (
              some_inj (rw (unknown, one) at e),
              inr (unknown, owned_alone rows models m r i a (ground (arith, one))),
            )
          ]
        ]
    where
      names : List String
      names = named lower equal_fold (lower (name_of m.id)) models

  -- What was read of the gateway.
  with_served-listed :
      (g : GatewayConfig) (served : Option Served) (gateway : Option (GatewayConfig × Served))
      → with_served lower equal_fold g served ≡ some gateway
      → (v : Served) × (served ≡ some v) × (some (g, v) ≡ gateway)
  unfolding with_served
  with_served-listed g none gateway e = absurd (none-ne-some e)
  with_served-listed g (some v) gateway e = (v, refl, some_inj e)

  with_list-listed :
      (g : GatewayConfig) (l : Option (List (Option GatewayModel)))
      (gateway : Option (GatewayConfig × Served))
      → with_list lower equal_fold g l ≡ some gateway
      → (list : List (Option GatewayModel)) × (served : Served) × (l ≡ some list)
        × (serve_models lower equal_fold list ≡ some served)
        × (some (g, served) ≡ gateway)
  unfolding with_list
  with_list-listed g none gateway e = absurd (none-ne-some e)
  with_list-listed g (some list) gateway e =
      let (served, v, same) = with_served-listed g (serve_models lower equal_fold list) gateway e in
      (list, served, refl, v, same)

  endpoint-listed :
      (s : SelectionConfig) (rows : List (Option CatalogModel)) (models : List CatalogModel)
      (m : CatalogModel)
      → (g : GatewayConfig) (list : List (Option GatewayModel)) (served : Served) (id : String)
      → read_catalog rows ≡ some models
      → In m models
      → has_author m.id ≡ true
      → serve_models lower equal_fold list ≡ some served
      → endpoint lower equal_fold s.authors models (some (g, served)) m.id ≡ some id
      → (entry : GatewayModel) × In (some entry) list
        × (entry.id ≡ id)
        × ((lower entry.id ≡ lower g.prefix <> lower m.id)
            ⊎ ((lower entry.id ≡ lower g.prefix <> lower (name_of m.id))
                × IsOwned s rows m.id entry))
  unfolding endpoint listed_or_owned match_owner
  endpoint-listed s rows models m g list served id r i a v e =
      elim (Option-cases (lookup (lower g.prefix <> lower m.id) served)) [
        | inr (entry, full) ↦
            let (among, key) =
              serve_models-listed lower equal_fold list served (lower g.prefix <> lower m.id) entry
                v full in
            (entry, among, some_inj (rw full at e), inl key)
        | inl unlisted ↦
            elim (Option-cases (lookup (lower g.prefix <> lower (name_of m.id)) served)) [
              | inl nowhere ↦ absurd (none-ne-some (rw (unlisted, nowhere) at e))
              | inr (entry, bare) ↦
                  let (among, key) =
                    serve_models-listed lower equal_fold list served
                      (lower g.prefix <> lower (name_of m.id)) entry v bare in
                  let (same, owned) =
                    match_owner-IsOwned s rows models m entry id r i a (rw (unlisted, bare) at e) in
                  (entry, among, same, inr (key, owned))
            ]
      ]

  pub endpoint-Route :
      (s : SelectionConfig) (rows : List (Option CatalogModel)) (models : List CatalogModel)
      (m : CatalogModel)
      → (x : Inputs) (configured : Option GatewayConfig) (gateway : Option (GatewayConfig × Served))
        (id : String)
      → read_catalog rows ≡ some models
      → In m models
      → has_author m.id ≡ true
      → read_gateway lower equal_fold configured x.list ≡ some gateway
      → endpoint lower equal_fold s.authors models gateway m.id ≡ some id
      → Route s rows configured x m.id id
  unfolding endpoint read_gateway
  endpoint-Route s rows models m x none none id r i a g e = some_inj e
  endpoint-Route s rows models m x none (some served) id r i a g e =
      absurd (none-ne-some (some_inj g))
  endpoint-Route s rows models m x (some g) gateway id r i a q e =
      let (list, served, l, v, same) = with_list-listed g x.list gateway q in
      let (entry, among, listed, how) =
        endpoint-listed s rows models m g list served id r i a v
          (subst (λ w. endpoint lower equal_fold s.authors models w m.id ≡ some id) (sym same) e) in
      (list, entry, l, among, listed, how)
