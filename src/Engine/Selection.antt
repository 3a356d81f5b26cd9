-- ===== src/Engine/Selection.antt =====
-- rewrite/cmd/engine/selection.go and models.go: which model a launch is given, and by which id it is invoked. A
-- catalog, a gateway's list and the choice of a judge are arguments, read afresh for each attempt; none stands for an
-- answer that is an error, and for an entry that cannot be decoded. strings.ToLower and strings.EqualFold are
-- arguments, and what the judge reads of a model is a text of its entry.
pub mod Attempt
pub mod Catalog
pub mod Routes
pub mod Choose
use Prim.Native.Char.{Char, code}
use lass_das.Base.{
  ℕ, String, ◌==◌, ◌<>◌, contains, Bool, true, false, not, ◌&&◌, ◌||◌, Option, none, some, List, [],
  ◌∷◌, ◌++◌, if◌then◌else◌, leb, length, any, is_some, lookup, contains_text, trim_space,
}

pub record GatewayConfig : Type 0 where
  pub models_url : String
  pub key_env : String
  pub prefix : String

-- `judge_url`, `judge_model` and `judge_key_env` are those of the decision service.
pub record SelectionConfig : Type 0 where
  pub judge_url : String
  pub judge_model : String
  pub judge_key_env : String
  pub has_fallback : Bool
  pub authors : List String
  pub fixed : String
  pub gateway : Option GatewayConfig

unfoldable pub fixed_model : SelectionConfig → String
fixed_model s = trim_space s.fixed

unfoldable pub invocation_prefix : SelectionConfig → String
invocation_prefix s = elim s.gateway [ none ↦ "" | some g ↦ g.prefix ]

-- What `validate` refuses.
pub data InvalidSelection : Type 0 where
  fixed_id no_chooser half_judge no_models_url no_key_env no_prefix : InvalidSelection

abbrev pub is_blank : String → Bool
is_blank s = trim_space s == ""

unfoldable pub check_gateway : Option GatewayConfig → Option InvalidSelection
check_gateway none = none
check_gateway (some g) =
    if is_blank g.models_url
    then some no_models_url
    else if is_blank g.key_env
    then some no_key_env
    else if is_blank g.prefix
    then some no_prefix
    else none

unfoldable pub check_selection : SelectionConfig → Option InvalidSelection
unfolding fixed_model check_gateway
check_selection s =
    if not (fixed_model s == "") && not (contains (fixed_model s) "/")
    then some fixed_id
    else if (fixed_model s == "") && (is_blank s.judge_url && not s.has_fallback)
    then some no_chooser
    else if is_blank s.judge_url && (not (is_blank s.judge_model) || not (is_blank s.judge_key_env))
    then some half_judge
    else check_gateway s.gateway

-- An entry of the catalog.
pub record CatalogModel : Type 0 where
  pub id : String
  pub supported : List String
  pub output : List String
  pub summary : String

-- An entry of the gateway's list; an owner that is not a string is "".
pub record GatewayModel : Type 0 where
  pub id : String
  pub owned_by : String

abbrev pub Choices : Type 0
Choices = List (String × String)

abbrev pub Served : Type 0
Served = List (String × GatewayModel)

unfoldable pub cons_author : Char → Option (String × String) → Option (String × String)
cons_author c none = none
cons_author c (some (author, name)) = some (String.◌∷◌ c author, name)

-- `strings.Cut(id, "/")`.
unfoldable pub cut_slash : String → Option (String × String)
unfolding cons_author
cut_slash String.[] = none
cut_slash (String.◌∷◌ c s) =
    let rest = cut_slash s in
    if leb 47 (code c) && leb (code c) 47 then some (String.[], s) else cons_author c rest

unfoldable pub author_of : String → String
unfolding cut_slash
author_of id = elim (cut_slash id) [ none ↦ id | some parts ↦ parts.0 ]

unfoldable pub name_of : String → String
unfolding cut_slash
name_of id = elim (cut_slash id) [ none ↦ "" | some parts ↦ parts.1 ]

unfoldable pub has_author : String → Bool
unfolding cut_slash
has_author id = is_some (cut_slash id)

-- `excluded[author]`.
unfoldable pub is_excluded : List String → String → Bool
unfolding author_of
is_excluded selected author = any (λ model. author_of model == author) selected

-- What an entry must have to be a choice.
unfoldable pub is_eligible : List String → List String → CatalogModel → Bool
unfolding has_author author_of is_excluded
is_eligible authors selected m =
    has_author m.id
    && (not (is_excluded selected (author_of m.id))
        && (contains_text (author_of m.id) authors
            && (contains_text "tools" m.supported && contains_text "text" m.output)))

-- The choices of the catalog; an entry that cannot be read is an error.
unfoldable pub read_catalog : List (Option CatalogModel) → Option (List CatalogModel)
read_catalog [] = some []
read_catalog (none ∷ rows) = none
read_catalog (some m ∷ rows) =
    let rest = read_catalog rows in elim rest [ none ↦ none | some models ↦ some (m ∷ models) ]

-- A later entry of the same id takes the place of an earlier one.
unfoldable pub choices_of : List String → List String → Choices → List CatalogModel → Choices
unfolding is_eligible
choices_of authors selected choices [] = choices
choices_of authors selected choices (m ∷ models) =
    choices_of authors selected
      (if is_eligible authors selected m then (m.id, m.summary) ∷ choices else choices) models

unfoldable pub add_id : String → List String → List String
add_id id ids = if contains_text id ids then ids else id ∷ ids
