-- ===== src/Examples/Access.antt =====
-- The theorems about the issue scope, at an issue and a worker's requests.
use lass_das.Base.{
  String, ◌==◌, true, false, none, some, List, [], ◌∷◌, ◌≡◌, ◌⊎◌, All, In, has_key, lookup_or, refl,
  inl, ℤ, pos,
}
use lass_das.Tracker.Scope.{
  Request, form_read, Scope, Call, granted, Reply, received, decide, decide_operation, remove_key,
  content_form,
}
use lass_das.Tracker.Numbers.{after_prefix}
use lass_das.Tracker.Scope.Granted.{IsKeyed, Grants, decide-Grants}
use lass_das.Tracker.Scope.Serve.{newest, earlier_posts, remove_earlier_posts}
use lass_das.Tracker.Scope.Posts.{AtMost, remove_earlier_posts-newest}

-- The issue's key holds no character that a path escapes.
abbrev escape : String → String
escape name = name

abbrev scope : Scope
scope = record {
  issue = "DAS-12";
  key = "k3y";
  may_post = true;
  latest = true;
  posts = pos 7 ∷ pos 9 ∷ [];
  stored = none;
}

abbrev comment_form : List (String × List String)
comment_form = ("content", "Done." ∷ []) ∷ []

abbrev comment : Request
comment = record {
  method = "POST";
  path = "/issues/DAS-12/comments";
  query = some (("apiKey", "k3y" ∷ []) ∷ []);
  media = some "application/x-www-form-urlencoded";
  body = form_read (some comment_form);
}

abbrev comment_call : Call
comment_call = record {
  method = "POST";
  path = "/issues/DAS-12/comments";
  query = [];
  form = some comment_form;
  expected = 201;
}

lets_comment : decide escape scope comment ≡ granted comment_call
unfolding decide decide_operation remove_key content_form ◌==◌ lookup_or after_prefix
lets_comment = refl

decide-Grants_example :
    IsKeyed scope comment
    × Grants true "/issues/DAS-12" comment_call
    × (has_key "apiKey" comment_call.query ≡ false)
decide-Grants_example = decide-Grants escape scope comment comment_call lets_comment

abbrev stores_8 : Call → Reply
stores_8 call = received (some (pos 8))

remove_earlier_posts-newest_example :
    In (newest scope.posts) scope.posts
    × All (AtMost (newest scope.posts)) scope.posts
    × (In (newest scope.posts) (earlier_posts scope) → ⊥)
    × ((id : ℤ) → In id scope.posts → (id ≡ newest scope.posts) ⊎ In id (earlier_posts scope))
    × ((remove_earlier_posts (λ id. true) scope).1.posts ≡ newest scope.posts ∷ [])
remove_earlier_posts-newest_example =
    remove_earlier_posts-newest (λ id. true) scope (pos 7) refl (refl, (refl, tt)) (inl refl)
