-- ===== src/Tracker/Scope.antt =====
-- rewrite/internal/tracker/scope.go: the one issue that a worker may read and comment on. A request is given
-- as net/url and mime read it, and the receipt of the tracker as the id that json reads from it. Of a
-- refusal the status is modelled and not the text.
pub mod Granted
pub mod Serve
pub mod Posts
use lass_das.Base.{
  ◌<>◌, ℕ, zero, suc, ◌+◌, String, ◌==◌, contains, Bool, true, false, not, ◌&&◌, ◌||◌, Option, none,
  some, List, [], ◌∷◌, ◌++◌, if◌then◌else◌, leb, is_empty, is_some, all, has_key, lookup_or, ℤ, pos,
  same_int, less_int,
}
use lass_das.Tracker.Numbers.{parse_int, format_int, after_prefix}

-- `url.Values`.
abbrev pub Values : Type 0
Values = List (String × List String)

-- What reading the body gives: a form, or none where it is no form; or one of the two errors.
pub data Body : Type 0 where
  form_read : Option Values → Body
  too_large unreadable : Body

pub record Request : Type 0 where
  pub method : String
  pub path : String
  pub query : Option Values
  pub media : Option String
  pub body : Body

-- `stored` says whether the id could be recorded.
pub record Scope : Type 0 where
  pub issue : String
  pub key : String
  pub may_post : Bool
  pub latest : Bool
  pub posts : List ℤ
  pub stored : Option (ℤ → Bool)

-- What is sent to the tracker.
pub record Call : Type 0 where
  pub method : String
  pub path : String
  pub query : Values
  pub form : Option Values
  pub expected : ℕ

pub data Verdict : Type 0 where
  rejected : ℕ → Verdict
  granted : Call → Verdict

pub data Reply : Type 0 where
  received : Option ℤ → Reply
  missing failed : Reply

-- The issue that `NewIssueScope` refuses.
unfoldable pub is_refused_issue : String → Bool
is_refused_issue issue =
    (issue == "")
    || ((issue == ".")
        || ((issue == "..")
            || (contains issue "/"
                || (contains issue "\\"
                    || (contains issue "?"
                        || (contains issue "#"
                            || (contains issue "\r"
                                || (contains issue "\n" || contains issue "\0"))))))))

-- `NewIssueScope` with its options: refused, or without randomness for a key, there is no scope.
unfoldable pub new_scope : Option String → String → Bool → Bool → Option (ℤ → Bool) → Option Scope
unfolding is_refused_issue
new_scope key issue may_post latest stored = if is_refused_issue issue then none else elim key [
  | none ↦ none
  | some k ↦ some (record {
    issue = issue;
    key = k;
    may_post = may_post;
    latest = latest;
    posts = [];
    stored = stored;
  })
]

-- `delete(query, name)`.
unfoldable pub remove_key : String → Values → Values
remove_key name [] = []
remove_key name ((other, values) ∷ query) =
    let rest = remove_key name query in if other == name then rest else (other, values) ∷ rest

unfoldable pub in_range : ℤ → Option ℤ → Option ℤ → Bool
in_range low none high = false
in_range low (some n) none = not (less_int n low)
in_range low (some n) (some high) = not (less_int n low) && not (less_int high n)

-- One parameter of the listing of comments.
unfoldable pub is_comment_parameter : String × List String → Bool
unfolding in_range
is_comment_parameter (name, []) = false
is_comment_parameter (name, value ∷ []) =
    if name == "order"
    then value == "asc"
    else if name == "count"
    then in_range (pos 1) (parse_int value) (some (pos 100))
    else if name == "minId"
    then in_range (pos 0) (parse_int value) none
    else false
is_comment_parameter (name, value ∷ _ ∷ _) = false

-- A positive id in its one decimal form.
unfoldable pub is_comment_id : String → Bool
is_comment_id id = elim (parse_int id) [
  | none ↦ false
  | some n ↦ less_int (pos 0) n && (format_int n == id)
]

abbrev read_call : String → Values → Call
read_call path query = record {
  method = "GET";
  path = path;
  query = query;
  form = none;
  expected = 200;
}

-- The form of a comment: its content and nothing else.
unfoldable pub content_form : Values → Verdict → Verdict
content_form ((name, content ∷ []) ∷ []) verdict =
    if name == "content" then verdict else rejected 400
content_form _ verdict = rejected 400

post_comment : String → Request → Values → Verdict
unfolding content_form
post_comment path r query = if not (is_empty query) then rejected 400 else elim r.media [
  | none ↦ rejected 415
  | some media ↦
      if not (media == "application/x-www-form-urlencoded") then rejected 415 else elim r.body [
        | too_large ↦ rejected 413
        | unreadable ↦ rejected 400
        | form_read o ↦ elim o [
          | none ↦ rejected 400
          | some form ↦ content_form form (
              granted (record {
                method = "POST";
                path = path;
                query = query;
                form = some form;
                expected = 201;
              }))
        ]
      ]
]

abbrev pub comments_of : String → String
comments_of path = path <> "/comments"

read_comment : String → Values → Option String → Verdict
read_comment path query none = rejected 403
read_comment path query (some id) =
    if is_empty query && is_comment_id id then granted (read_call path query) else rejected 400

-- The switch over the operations, behind the test of the key.
unfoldable pub decide_operation : Scope → String → Request → Values → Verdict
unfolding post_comment read_comment
decide_operation scope path r query =
    if (r.method == "GET") && (r.path == path)
    then (if is_empty query then granted (read_call path query) else rejected 400)
    else if (r.method == "GET") && (r.path == comments_of path)
    then (if all is_comment_parameter query
        then granted (read_call (comments_of path) query)
        else rejected 400)
    else if (r.method == "GET") && is_some (after_prefix (comments_of path <> "/") r.path)
    then read_comment r.path query (after_prefix (comments_of path <> "/") r.path)
    else if (r.method == "POST") && ((r.path == comments_of path) && scope.may_post)
    then post_comment (comments_of path) r query
    else rejected 403

abbrev pub has_access : Scope → Values → Bool
has_access scope query = elim (lookup_or [] "apiKey" query) [
  | [] ↦ false
  | value ∷ [] ↦ not (scope.key == "") && (value == scope.key)
  | _ ∷ _ ∷ _ ↦ false
]

module _ (path_escape : String → String) where
  abbrev pub issue_path : Scope → String
  issue_path scope = "/issues/" <> path_escape scope.issue

  unfoldable pub decide : Scope → Request → Verdict
  unfolding decide_operation
  decide scope r = elim r.query [
    | none ↦ rejected 400
    | some query ↦
        if has_access scope query
        then decide_operation scope (issue_path scope) r (remove_key "apiKey" query)
        else rejected 401
  ]
