-- ===== src/Tracker/Scope/Granted.antt =====
-- rewrite/internal/tracker/scope.go, ServeHTTP: what a scope lets through.
use lass_das.Base.{
  ◌<>◌, ℕ, String, ◌==◌, ==→≡, ≡→==, Bool, true, false, not, ◌&&◌, Option, none, some, List, [],
  ◌∷◌, ◌≡◌, refl, sym, ap, ◌∙◌, subst, All, ℤ, pos, less_int, ◌≢◌, inl, inr, Bool-cases,
  Option-cases, is_empty, is_some, all, has_key, lookup_or, arith,
}
use lass_das.Tracker.Numbers.{after_prefix, parse_int}
use lass_das.Tracker.Scope.{
  Values, Request, Body, form_read, too_large, unreadable, Scope, Call, Verdict, rejected, granted,
  remove_key, content_form, post_comment, read_comment, comments_of, decide_operation, has_access,
  issue_path, decide, is_comment_parameter, is_comment_id, in_range,
}

remove_key-gone : (name : String) (query : Values) → has_key name (remove_key name query) ≡ false
unfolding remove_key has_key
remove_key-gone name [] = refl
remove_key-gone name ((other, values) ∷ query) = ground (arith, remove_key-gone name query)

-- A form with one content and nothing else.
pub data IsContent (o : Option Values) : Type 0 where
  only_content : (text : String) → o ≡ some (("content", text ∷ []) ∷ []) → IsContent o

-- What may be asked of the listing of comments: the oldest first, one to a hundred, from an id on.
pub data IsParameter (p : String × List String) : Type 0 where
  oldest_first : p ≡ ("order", "asc" ∷ []) → IsParameter p
  at_most :
      (text : String) (n : ℤ)
      → p ≡ ("count", text ∷ [])
      → parse_int text ≡ some n
      → less_int n (pos 1) ≡ false
      → less_int (pos 100) n ≡ false
      → IsParameter p
  from_id :
      (text : String) (n : ℤ)
      → p ≡ ("minId", text ∷ [])
      → parse_int text ≡ some n
      → less_int n (pos 0) ≡ false
      → IsParameter p

-- What the scope grants below the issue's path: it reads the issue, its comments or one of them; or
-- it posts one comment, where posting is granted. Only the listing has a query, and only a post a form.
pub data Grants (may_post : Bool) (path : String) (call : Call) : Type 0 where
  reads_issue :
      call.method ≡ "GET"
      → call.path ≡ path
      → call.query ≡ []
      → call.form ≡ none
      → Grants may_post path call
  reads_comments :
      call.method ≡ "GET"
      → call.path ≡ comments_of path
      → All IsParameter call.query
      → call.form ≡ none
      → Grants may_post path call
  reads_comment :
      (id : String)
      → call.method ≡ "GET"
      → after_prefix (comments_of path <> "/") call.path ≡ some id
      → is_comment_id id ≡ true
      → call.query ≡ []
      → call.form ≡ none
      → Grants may_post path call
  posts_comment :
      call.method ≡ "POST"
      → call.path ≡ comments_of path
      → may_post ≡ true
      → call.query ≡ []
      → IsContent call.form
      → Grants may_post path call

is_empty→[] : (query : Values) → is_empty query ≡ true → query ≡ []
is_empty→[] [] e = refl
is_empty→[] (p ∷ query) e = cc

is_comment_parameter-IsParameter :
    (p : String × List String) → is_comment_parameter p ≡ true → IsParameter p
unfolding is_comment_parameter in_range
is_comment_parameter-IsParameter (name, []) e = cc
is_comment_parameter-IsParameter (name, value ∷ []) e = elim (Bool-cases (name == "order")) [
  | inl o ↦ IsParameter.oldest_first (
      ap (λ n. (n, value ∷ [])) (==→≡ name "order" o)
      ∙ ap (λ v. ("order", v ∷ [])) (==→≡ value "asc" (rw o at e)))
  | inr o ↦ elim (Bool-cases (name == "count")) [
    | inl c ↦ counted c (parse_int value) refl (rw (o, c) at e)
    | inr c ↦ elim (Bool-cases (name == "minId")) [
      | inl m ↦ started m (parse_int value) refl (rw (o, c, m) at e)
      | inr m ↦ cc (rw (o, c, m) at e)
    ]
  ]
]
  where
    counted :
        (name == "count") ≡ true
        → (o : Option ℤ) → parse_int value ≡ o
        → in_range (pos 1) o (some (pos 100)) ≡ true
        → IsParameter (name, value ∷ [])
    counted c none q h = cc
    counted c (some n) q h =
        IsParameter.at_most value n (ap (λ k. (k, value ∷ [])) (==→≡ name "count" c)) q
          (ground (arith, h)) (ground (arith, h))

    started :
        (name == "minId") ≡ true
        → (o : Option ℤ) → parse_int value ≡ o
        → in_range (pos 0) o none ≡ true
        → IsParameter (name, value ∷ [])
    started m none q h = cc
    started m (some n) q h =
        IsParameter.from_id value n (ap (λ k. (k, value ∷ [])) (==→≡ name "minId" m)) q
          (ground (arith, h))
is_comment_parameter-IsParameter (name, value ∷ _ ∷ _) e = cc

all-IsParameter : (query : Values) → all is_comment_parameter query ≡ true → All IsParameter query
all-IsParameter [] e = tt
all-IsParameter (p ∷ query) e = (
  is_comment_parameter-IsParameter p (ground (arith, e)),
  all-IsParameter query (ground (arith, e)),
)

-- A call that is granted, with a query of its own.
record Fits (may_post : Bool) (path : String) (query : Values) (verdict : Verdict) : Type 0 where
  fits : (call : Call) → verdict ≡ granted call → Grants may_post path call × (call.query ≡ query)

Fits-rejected :
    (may_post : Bool) (path : String) (query : Values) (status : ℕ)
    → Fits may_post path query (rejected status)
Fits-rejected may_post path query status = record { fits = λ call e. absurd (apart e) }
  where
    apart : {call : Call} → rejected status ≡ granted call → ⊥
    apart e = cc

Fits-granted :
    (may_post : Bool) (path : String) (query : Values) (call : Call)
    → Grants may_post path call
    → call.query ≡ query
    → Fits may_post path query (granted call)
Fits-granted may_post path query call g q = record { fits = λ call' e. rw (← same e) (g, q) }
  where
    same : {call' : Call} → granted call ≡ granted call' → call ≡ call'
    same e = cc

content_form-Fits :
    (path : String) (query form : Values)
    → query ≡ []
    → Fits true path query (
        content_form form (
          granted (record {
            method = "POST";
            path = comments_of path;
            query = query;
            form = some form;
            expected = 201;
          })))
unfolding content_form
content_form-Fits path query [] q = Fits-rejected _ _ _ _
content_form-Fits path query ((name, []) ∷ form) q = Fits-rejected _ _ _ _
content_form-Fits path query ((name, content ∷ []) ∷ []) q = elim (Bool-cases (name == "content")) [
  | inl e ↦ rw e (
      Fits-granted true path query _
        (Grants.posts_comment refl refl refl q
          (IsContent.only_content content (rw (==→≡ name "content" e))))
        refl)
  | inr e ↦ rw e (Fits-rejected _ _ _ _)
]
content_form-Fits path query ((name, content ∷ []) ∷ _ ∷ form) q = Fits-rejected _ _ _ _
content_form-Fits path query ((name, content ∷ _ ∷ _) ∷ form) q = Fits-rejected _ _ _ _

post_comment-Fits :
    (path : String) (r : Request) (query : Values)
    → Fits true path query (post_comment (comments_of path) r query)
unfolding post_comment
post_comment-Fits path r query = elim (Bool-cases (is_empty query)) [
  | inr e ↦ rw e (Fits-rejected _ _ _ _)
  | inl e ↦ elim (Option-cases r.media) [
    | inl m ↦ rw (e, m) (Fits-rejected _ _ _ _)
    | inr (media, m) ↦ elim (Bool-cases (media == "application/x-www-form-urlencoded")) [
      | inr f ↦ rw (e, m, f) (Fits-rejected _ _ _ _)
      | inl f ↦ rw (e, m, f) (read_body r.body (is_empty→[] query e))
    ]
  ]
]
  where
    read_body :
        (body : Body)
        → query ≡ []
        → Fits true path query (elim body [
          | too_large ↦ rejected 413
          | unreadable ↦ rejected 400
          | form_read o ↦ elim o [
            | none ↦ rejected 400
            | some form ↦ content_form form (
                granted (record {
                  method = "POST";
                  path = comments_of path;
                  query = query;
                  form = some form;
                  expected = 201;
                }))
          ]
        ])
    read_body too_large q = Fits-rejected _ _ _ _
    read_body unreadable q = Fits-rejected _ _ _ _
    read_body (form_read none) q = Fits-rejected _ _ _ _
    read_body (form_read (some form)) q = content_form-Fits path query form q

read_comment-Fits :
    (may_post : Bool) (path requested : String) (query : Values) (o : Option String)
    → after_prefix (comments_of path <> "/") requested ≡ o
    → Fits may_post path query (read_comment requested query o)
unfolding read_comment
read_comment-Fits may_post path requested query none q = Fits-rejected _ _ _ _
read_comment-Fits may_post path requested query (some id) q =
    elim (Bool-cases (is_empty query && is_comment_id id)) [
      | inr e ↦ rw e (Fits-rejected _ _ _ _)
      | inl e ↦ rw e (
          Fits-granted may_post path query _
            (Grants.reads_comment id refl q (ground (arith, e))
              (is_empty→[] query (ground (arith, e))) refl)
            refl)
    ]

decide_operation-Fits :
    (scope : Scope) (path : String) (r : Request) (query : Values)
    → Fits scope.may_post path query (decide_operation scope path r query)
unfolding decide_operation
decide_operation-Fits scope path r query =
    elim (Bool-cases ((r.method == "GET") && (r.path == path))) [
      | inl a ↦ elim (Bool-cases (is_empty query)) [
        | inl e ↦
            rw (a, e)
              (Fits-granted scope.may_post path query _
                (Grants.reads_issue refl refl (is_empty→[] query e) refl) refl)
        | inr e ↦ rw (a, e) (Fits-rejected _ _ _ _)
      ]
      | inr a ↦ elim (Bool-cases ((r.method == "GET") && (r.path == comments_of path))) [
        | inl b ↦ elim (Bool-cases (all is_comment_parameter query)) [
          | inl e ↦
              rw (a, b, e)
                (Fits-granted scope.may_post path query _
                  (Grants.reads_comments refl refl (all-IsParameter query e) refl) refl)
          | inr e ↦ rw (a, b, e) (Fits-rejected _ _ _ _)
        ]
        | inr b ↦
            elim (Bool-cases
              ((r.method == "GET") && is_some (after_prefix (comments_of path <> "/") r.path))) [
                | inl d ↦ rw (a, b, d) (read_comment-Fits scope.may_post path r.path query _ refl)
                | inr d ↦
                    elim (Bool-cases
                      ((r.method == "POST") && ((r.path == comments_of path) && scope.may_post))) [
                        | inr e ↦ rw (a, b, d, e) (Fits-rejected _ _ _ _)
                        | inl e ↦
                            rw (a, b, d, e)
                              (subst
                                (λ may.
                                  Fits may path query (post_comment (comments_of path) r query))
                                (sym (granted_post e)) (post_comment-Fits path r query))
                      ]
              ]
      ]
    ]
  where
    granted_post :
        ((r.method == "POST") && ((r.path == comments_of path) && scope.may_post)) ≡ true
        → scope.may_post ≡ true
    granted_post e = ground (arith, e)

-- The request carried the scope's own key, once.
pub record IsKeyed (scope : Scope) (r : Request) : Type 0 where
  query : Values
  carried : r.query ≡ some query
  keyed : lookup_or [] "apiKey" query ≡ scope.key ∷ []
  not_empty : scope.key ≢ ""

has_access-keyed :
    (scope : Scope) (query : Values)
    → has_access scope query ≡ true
    → (lookup_or [] "apiKey" query ≡ scope.key ∷ []) × (scope.key ≢ "")
has_access-keyed scope query h = by_values (lookup_or [] "apiKey" query) h
  where
    by_values :
        (values : List String)
        → (elim values [
          | [] ↦ false
          | value ∷ [] ↦ not (scope.key == "") && (value == scope.key)
          | _ ∷ _ ∷ _ ↦ false
        ])
          ≡ true
        → (values ≡ scope.key ∷ []) × (scope.key ≢ "")
    by_values [] h = cc
    by_values (value ∷ []) h = (
      ap (λ v. v ∷ []) (==→≡ value scope.key (ground (arith, h))),
      λ e. ground (arith, h, ≡→== scope.key "" e),
    )
    by_values (_ ∷ _ ∷ _) h = cc

-- Whatever a worker sends, ServeHTTP forwards only a request that carried the scope's own key
-- once: a read of the issue, of its comments or of one comment of it, or where posting is granted
-- one comment with its content and nothing else; the key is not sent on. No query is sent on, except
-- that the listing of the comments may have its order, its count from 1 to 100 and its least id.
pub decide-Grants :
    (path_escape : String → String) (scope : Scope) (r : Request) (call : Call)
    → decide path_escape scope r ≡ granted call
    → IsKeyed scope r
      × Grants scope.may_post (issue_path path_escape scope) call
      × (has_key "apiKey" call.query ≡ false)
unfolding decide
decide-Grants path_escape scope r call h = elim (Option-cases r.query) [
  | inl q ↦ absurd (apart (rw q at h))
  | inr (query, q) ↦ elim (Bool-cases (has_access scope query)) [
    | inr a ↦ absurd (apart (rw (q, a) at h))
    | inl a ↦
        let (keyed, not_empty) = has_access-keyed scope query a in
        let (g, same) =
          (decide_operation-Fits scope (issue_path path_escape scope) r
              (remove_key "apiKey" query)).fits
            call (rw (q, a) at h) in
        (
          record { query = query; carried = q; keyed = keyed; not_empty = not_empty },
          g,
          rw same (remove_key-gone "apiKey" query),
        )
  ]
]
  where
    apart : {status : ℕ} → rejected status ≡ granted call → ⊥
    apart e = cc
