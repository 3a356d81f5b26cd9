-- ===== src/Tracker/Scope/Serve.antt =====
-- rewrite/internal/tracker/scope.go: a request served, the comments it stored, and their removal.
use lass_das.Base.{
  ℕ, suc, String, ◌==◌, Bool, true, not, ◌&&◌, ◌||◌, Option, none, some, List, [], ◌∷◌, ◌++◌,
  if◌then◌else◌, is_some, ℤ, pos, same_int, less_int,
}
use lass_das.Tracker.Scope.{
  Request, Scope, Call, rejected, granted, Reply, received, missing, failed, decide,
}

note_post : Scope → ℤ → Scope
note_post scope id = record scope { posts = scope.posts ++ id ∷ [] }

recorded : Option (ℤ → Bool) → ℤ → Bool
recorded none id = true
recorded (some store) id = store id

-- `remember`: whether it succeeded. A receipt without a positive id is refused only where one is wanted.
unfoldable pub remember : Scope → Option ℤ → Bool × Scope
unfolding note_post recorded
remember scope none = (not (is_some scope.stored), scope)
remember scope (some id) =
    if less_int (pos 0) id
    then (recorded scope.stored id, note_post scope id)
    else (not (is_some scope.stored), scope)

-- The status and the scope behind a call that the tracker answered.
unfoldable pub answer : Scope → Call → Reply → ℕ × Scope
unfolding remember
answer scope call failed = (502, scope)
answer scope call missing = (404, scope)
answer scope call (received id) =
    if (call.method == "POST") && (scope.latest || is_some scope.stored)
    then (if (remember scope id).0 then call.expected else 502, (remember scope id).1)
    else (call.expected, scope)

-- `ServeHTTP`, with the tracker's answer to a call.
unfoldable pub serve : (String → String) → (Call → Reply) → Scope → Request → ℕ × Scope
unfolding answer
serve path_escape forward scope r = elim (decide path_escape scope r) [
  | rejected status ↦ (status, scope)
  | granted call ↦ answer scope call (forward call)
]

-- The greatest id, from `best` on.
unfoldable pub newest_from : ℤ → List ℤ → ℤ
newest_from best [] = best
newest_from best (id ∷ posts) = newest_from (if less_int best id then id else best) posts

abbrev pub newest : List ℤ → ℤ
newest posts = newest_from (pos 0) posts

-- The comments that the tracker is asked to remove.
unfoldable pub others : ℤ → List ℤ → List ℤ
others latest [] = []
others latest (id ∷ posts) =
    let rest = others latest posts in if same_int id latest then rest else id ∷ rest

count_removed : (ℤ → Bool) → List ℤ → ℕ
count_removed removes [] = 0
count_removed removes (id ∷ posts) =
    let rest = count_removed removes posts in if removes id then suc rest else rest

abbrev pub earlier_posts : Scope → List ℤ
earlier_posts scope = if scope.latest then others (newest scope.posts) scope.posts else []

unfoldable pub forget_earlier : Scope → Scope
forget_earlier scope =
    if less_int (pos 0) (newest scope.posts)
    then record scope { posts = newest scope.posts ∷ [] }
    else scope

-- `RemoveEarlierPosts`: how many the tracker removed, and the scope behind it.
unfoldable pub remove_earlier_posts : (ℤ → Bool) → Scope → ℕ × Scope
unfolding forget_earlier count_removed
remove_earlier_posts removes scope =
    (count_removed removes (earlier_posts scope), forget_earlier scope)
