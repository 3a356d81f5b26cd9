-- ===== src/Engine/Selection/Catalog.antt =====
-- rewrite/cmd/engine/selection.go: the choices of a catalog, and the entries of a gateway's list.
use lass_das.Base.{
  String, ◌==◌, ==→≡, ==_refl, Bool, true, ◌&&◌, Option, none, some, List, [], ◌∷◌, leb, length,
  is_some, lookup, contains_text, ◌≡◌, ◌⊎◌, inl, inr, refl, sym, ap, ◌∙◌, subst, In, Bool-cases,
  Option-cases, arith, some_inj, none-ne-some,
}
use lass_das.Engine.Selection.{
  GatewayConfig, GatewayModel, CatalogModel, Choices, Served, name_of, has_author, is_eligible,
  read_catalog, choices_of, add_id,
}
use lass_das.Engine.Selection.Attempt.{named, serve_models, endpoint, served_choices}

-- A choice comes from the catalog.
pub choices_of-eligible :
    (authors selected : List String) (choices : Choices) (models : List CatalogModel) (k : String)
    → is_some (lookup k (choices_of authors selected choices models)) ≡ true
    → (is_some (lookup k choices) ≡ true)
      ⊎ ((m : CatalogModel) × In m models × (m.id ≡ k) × (is_eligible authors selected m ≡ true))
unfolding choices_of lookup
choices_of-eligible authors selected choices [] k h = inl h
choices_of-eligible authors selected choices (m ∷ models) k h =
    elim (Bool-cases (is_eligible authors selected m)) [
      | inr other ↦
          later choices (choices_of-eligible authors selected choices models k (rw other at h))
            (λ e. inl e)
      | inl taken ↦
          later ((m.id, m.summary) ∷ choices)
            (choices_of-eligible authors selected ((m.id, m.summary) ∷ choices) models k
              (rw taken at h))
            (λ e. new taken e)
    ]
  where
    Found : Type 0
    Found =
        (is_some (lookup k choices) ≡ true)
        ⊎ ((n : CatalogModel) × In n (m ∷ models)
            × (n.id ≡ k)
            × (is_eligible authors selected n ≡ true))

    new :
        is_eligible authors selected m ≡ true
        → is_some (lookup k ((m.id, m.summary) ∷ choices)) ≡ true
        → Found
    new taken e = elim (Bool-cases (m.id == k)) [
      | inl same ↦ inr (m, inl refl, ==→≡ m.id k same, taken)
      | inr other ↦ inl (rw other at e)
    ]

    later :
        (c : Choices)
        → (is_some (lookup k c) ≡ true)
          ⊎ ((n : CatalogModel) × In n models
              × (n.id ≡ k)
              × (is_eligible authors selected n ≡ true))
        → (is_some (lookup k c) ≡ true → Found)
        → Found
    later c (inl e) f = f e
    later c (inr (n, i, e, taken)) f = inr (n, inr i, e, taken)

pub read_catalog-In :
    (rows : List (Option CatalogModel)) (models : List CatalogModel) (m : CatalogModel)
    → read_catalog rows ≡ some models
    → In m models
    → In (some m) rows
unfolding read_catalog
read_catalog-In [] models m e i = subst (In m) (sym (some_inj e)) i
read_catalog-In (none ∷ rows) models m e i = absurd (none-ne-some e)
read_catalog-In (some n ∷ rows) models m e i = elim (Option-cases (read_catalog rows)) [
  | inl r ↦ absurd (none-ne-some (rw r at e))
  | inr (later, r) ↦
      among later (read_catalog-In rows later m r) (subst (In m) (sym (some_inj (rw r at e))) i)
]
  where
    among :
        (later : List CatalogModel)
        → (In m later → In (some m) rows)
        → In m (n ∷ later)
        → In (some m) (some n ∷ rows)
    among later rest (inl same) = inl (ap some same)
    among later rest (inr i') = inr (rest i')

pub In-read_catalog :
    (rows : List (Option CatalogModel)) (models : List CatalogModel) (m : CatalogModel)
    → read_catalog rows ≡ some models
    → In (some m) rows
    → In m models
unfolding read_catalog
In-read_catalog [] models m e i = absurd i
In-read_catalog (none ∷ rows) models m e i = absurd (none-ne-some e)
In-read_catalog (some n ∷ rows) models m e i = elim (Option-cases (read_catalog rows)) [
  | inl r ↦ absurd (none-ne-some (rw r at e))
  | inr (later, r) ↦
      subst (In m) (some_inj (rw r at e)) (among later (In-read_catalog rows later m r) i)
]
  where
    among :
        (later : List CatalogModel)
        → (In (some m) rows → In m later)
        → In (some m) (some n ∷ rows)
        → In m (n ∷ later)
    among later rest (inl same) = inl (some_inj same)
    among later rest (inr i') = inr (rest i')

module _ (lower : String → String) (equal_fold : String → String → Bool) where
  first_known : (id : String) (ids : List String) → contains_text id (add_id id ids) ≡ true
  unfolding add_id contains_text
  first_known id ids = elim (Bool-cases (contains_text id ids)) [
    | inl known ↦ rw known known
    | inr new ↦ rw (new, ==_refl id) refl
  ]

  added :
      (id k : String) (ids : List String)
      → contains_text k ids ≡ true
      → contains_text k (add_id id ids) ≡ true
  unfolding add_id contains_text
  added id k ids h = elim (Bool-cases (contains_text id ids)) [
    | inl known ↦ rw known h
    | inr new ↦ rw new (ground (arith, h))
  ]

  -- The id of an entry is among those that end in its name.
  pub named-known :
      (name : String) (models : List CatalogModel) (m : CatalogModel)
      → In m models
      → (has_author m.id && (lower (name_of m.id) == name)) ≡ true
      → contains_text (lower m.id) (named lower equal_fold name models) ≡ true
  unfolding named add_id contains_text
  named-known name [] m i h = absurd i
  named-known name (n ∷ models) m (inl same) h =
      rw (subst (λ e. (has_author e.id && (lower (name_of e.id) == name)) ≡ true) same h) (
        subst
          (λ e.
            contains_text (lower e.id) (add_id (lower n.id) (named lower equal_fold name models))
            ≡ true)
          (sym same) (first_known (lower n.id) (named lower equal_fold name models)))
  named-known name (n ∷ models) m (inr i) h =
      elim (Bool-cases (has_author n.id && (lower (name_of n.id) == name))) [
        | inl here ↦ rw here (
            added (lower n.id) (lower m.id) (named lower equal_fold name models)
              (named-known name models m i h))
        | inr other ↦ rw other (named-known name models m i h)
      ]

  -- A list of one text holds no other.
  pub one_text :
      (l : List String) (a b : String)
      → (leb (length l) 1) ≡ true
      → contains_text a l ≡ true
      → contains_text b l ≡ true
      → a ≡ b
  unfolding contains_text
  one_text [] a b s p q = cc
  one_text (c ∷ []) a b s p q = sym (==→≡ c a (ground (arith, p))) ∙ ==→≡ c b (ground (arith, q))
  one_text (c ∷ d ∷ l) a b s p q = grind (arith, s)

  pub serve_models-listed :
      (rows : List (Option GatewayModel)) (served : Served) (k : String) (m : GatewayModel)
      → serve_models lower equal_fold rows ≡ some served
      → lookup k served ≡ some m
      → In (some m) rows × (lower m.id ≡ k)
  unfolding serve_models lookup
  serve_models-listed [] served k m e h = absurd (none-ne-some (rw (sym (some_inj e)) at h))
  serve_models-listed (none ∷ rows) served k m e h = absurd (none-ne-some e)
  serve_models-listed (some n ∷ rows) served k m e h =
      elim (Option-cases (serve_models lower equal_fold rows)) [
        | inl r ↦ absurd (none-ne-some (rw r at e))
        | inr (later, r) ↦
            among later (serve_models-listed rows later k m r)
              (subst (λ s. lookup k s ≡ some m) (sym (some_inj (rw r at e))) h)
      ]
    where
      among :
          (later : Served)
          → (lookup k later ≡ some m → In (some m) rows × (lower m.id ≡ k))
          → lookup k ((lower n.id, n) ∷ later) ≡ some m
          → In (some m) (some n ∷ rows) × (lower m.id ≡ k)
      among later rest found = elim (Bool-cases (lower n.id == k)) [
        | inl same ↦
            let entry : n ≡ m = some_inj (rw same at found) in
            (inl (sym (ap some entry)), sym (ap (λ x. lower x.id) entry) ∙ ==→≡ (lower n.id) k same)
        | inr other ↦ let (i, l) = rest (rw other at found) in (inr i, l)
      ]

  pub served_choices-served :
      (authors : List String) (models : List CatalogModel)
      (gateway : Option (GatewayConfig × Served))
      → (choices : Choices) (k : String)
      → is_some (lookup k (served_choices lower equal_fold authors models gateway choices)) ≡ true
      → (is_some (lookup k choices) ≡ true)
        × (is_some (endpoint lower equal_fold authors models gateway k) ≡ true)
  unfolding served_choices lookup
  served_choices-served authors models gateway [] k h = cc
  served_choices-served authors models gateway ((id, summary) ∷ choices) k h =
      elim (Bool-cases (is_some (endpoint lower equal_fold authors models gateway id))) [
        | inl served ↦ elim (Bool-cases (id == k)) [
          | inl same ↦ rw same (
            refl,
            subst (λ i. is_some (endpoint lower equal_fold authors models gateway i) ≡ true)
                (==→≡ id k same) served,
          )
          | inr other ↦
              rw other
                (served_choices-served authors models gateway choices k (rw (served, other) at h))
        ]
        | inr unserved ↦
            let (c, s) =
              served_choices-served authors models gateway choices k (rw unserved at h) in
            (ground (arith, c), s)
      ]
