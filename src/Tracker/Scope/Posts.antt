-- ===== src/Tracker/Scope/Posts.antt =====
-- rewrite/internal/tracker/scope.go: the ids that a scope remembers, and RemoveEarlierPosts.
use lass_das.Base.{
  ℕ, String, ◌==◌, Bool, true, false, ◌&&◌, ◌||◌, Option, none, some, List, [], ◌∷◌, ◌≡◌, ◌⊎◌, refl,
  sym, ◌∙◌, inl, inr, Bool-cases, if◌then◌else◌, All, All-append, In, is_some, ℤ, pos, negsuc,
  same_int, less_int, same_int→≡, same_int_refl, arith,
}
use lass_das.Tracker.Scope.{
  Request, Scope, Call, Verdict, rejected, granted, Reply, received, missing, failed, decide,
}
use lass_das.Tracker.Scope.Serve.{
  remember, answer, serve, newest_from, newest, others, earlier_posts, forget_earlier,
  remove_earlier_posts,
}

abbrev pub IsPositive : ℤ → Type 0
IsPositive id = less_int (pos 0) id ≡ true

abbrev pub AtMost : ℤ → ℤ → Type 0
AtMost high id = less_int high id ≡ false

remember-keeps :
    (scope : Scope) (id : Option ℤ)
    → All IsPositive scope.posts
    → All IsPositive (remember scope id).1.posts
unfolding remember
remember-keeps scope none h = h
remember-keeps scope (some id) h = elim (Bool-cases (less_int (pos 0) id)) [
  | inl e ↦ rw e (All-append IsPositive scope.posts (id ∷ []) h (e, tt))
  | inr e ↦ rw e h
]

answer-keeps :
    (scope : Scope) (call : Call) (reply : Reply)
    → All IsPositive scope.posts
    → All IsPositive (answer scope call reply).1.posts
unfolding answer
answer-keeps scope call failed h = h
answer-keeps scope call missing h = h
answer-keeps scope call (received id) h =
    elim (Bool-cases ((call.method == "POST") && (scope.latest || is_some scope.stored))) [
      | inl e ↦ rw e (remember-keeps scope id h)
      | inr e ↦ rw e h
    ]

-- Where every comment id that a scope remembers is positive, it stays so, whatever is requested
-- and whatever the tracker answers.
pub serve-keeps :
    (path_escape : String → String) (forward : Call → Reply) (scope : Scope) (r : Request)
    → All IsPositive scope.posts
    → All IsPositive (serve path_escape forward scope r).1.posts
unfolding serve
serve-keeps path_escape forward scope r h = by_verdict (decide path_escape scope r)
  where
    served : Verdict → ℕ × Scope
    served v = elim v [
      | rejected status ↦ (status, scope)
      | granted call ↦ answer scope call (forward call)
    ]

    by_verdict : (v : Verdict) → All IsPositive (served v).1.posts
    by_verdict (rejected status) = h
    by_verdict (granted call) = answer-keeps scope call (forward call) h

less_int_trans : (a b c : ℤ) → less_int a b ≡ true → less_int a c ≡ false → less_int b c ≡ false
less_int_trans (pos a) (pos b) (pos c) p q = ground arith
less_int_trans (pos a) (pos b) (negsuc c) p q = refl
less_int_trans (pos a) (negsuc b) (pos c) p q = cc
less_int_trans (pos a) (negsuc b) (negsuc c) p q = cc
less_int_trans (negsuc a) (pos b) (pos c) p q = cc
less_int_trans (negsuc a) (pos b) (negsuc c) p q = refl
less_int_trans (negsuc a) (negsuc b) (pos c) p q = cc
less_int_trans (negsuc a) (negsuc b) (negsuc c) p q = ground arith

less_int_irrefl : (a : ℤ) → less_int a a ≡ false
less_int_irrefl (pos a) = ground arith
less_int_irrefl (negsuc a) = ground arith

AtMost-trans : (a b c : ℤ) → AtMost b a → AtMost c b → AtMost c a
AtMost-trans (pos a) (pos b) (pos c) p q = ground arith
AtMost-trans (pos a) (pos b) (negsuc c) p q = cc
AtMost-trans (pos a) (negsuc b) c p q = cc
AtMost-trans (negsuc a) (pos b) (pos c) p q = refl
AtMost-trans (negsuc a) (pos b) (negsuc c) p q = cc
AtMost-trans (negsuc a) (negsuc b) (pos c) p q = refl
AtMost-trans (negsuc a) (negsuc b) (negsuc c) p q = ground arith

step : ℤ → ℤ → ℤ
step best id = if less_int best id then id else best

step-bounds :
    (best id : ℤ)
    → AtMost (step best id) best
      × AtMost (step best id) id
      × ((step best id ≡ id) ⊎ (step best id ≡ best))
unfolding step
step-bounds best id = elim (Bool-cases (less_int best id)) [
  | inl e ↦
      rw e (less_int_trans best id best e (less_int_irrefl best), less_int_irrefl id, inl refl)
  | inr e ↦ rw e (less_int_irrefl best, e, inr refl)
]

newest_from-bounds :
    (best : ℤ) (posts : List ℤ)
    → AtMost (newest_from best posts) best
      × All (AtMost (newest_from best posts)) posts
      × ((newest_from best posts ≡ best) ⊎ In (newest_from best posts) posts)
unfolding newest_from step
newest_from-bounds best [] = (less_int_irrefl best, tt, inl refl)
newest_from-bounds best (id ∷ posts) =
    let (below_step, all, found) = newest_from-bounds (step best id) posts in
    let (low, high, either) = step-bounds best id in
    (
      AtMost-trans best (step best id) _ low below_step,
      (AtMost-trans id (step best id) _ high below_step, all),
      elim found [
        | inr later ↦ inr (inr later)
        | inl here ↦ elim either [
          | inl is_id ↦ inr (inl (here ∙ is_id))
          | inr is_best ↦ inl (here ∙ is_best)
        ]
      ],
    )

others-apart : (latest : ℤ) (posts : List ℤ) → In latest (others latest posts) → ⊥
unfolding others
others-apart latest [] h = h
others-apart latest (id ∷ posts) h = elim (Bool-cases (same_int id latest)) [
  | inl e ↦ others-apart latest posts (rw e at h)
  | inr e ↦ elim (rw e at h) [
    | inr later ↦ others-apart latest posts later
    | inl here ↦ differ (sym e ∙ (rw here (same_int_refl id)))
  ]
]
  where
    differ : false ≡ true → ⊥
    differ x = cc

others-rest :
    (latest id : ℤ) (posts : List ℤ) → In id posts → (id ≡ latest) ⊎ In id (others latest posts)
unfolding others
others-rest latest id [] h = absurd h
others-rest latest id (other ∷ posts) h = elim (Bool-cases (same_int other latest)) [
  | inl e ↦ elim h [
    | inl here ↦ inl (here ∙ same_int→≡ other latest e)
    | inr later ↦ rw e (others-rest latest id posts later)
  ]
  | inr e ↦ elim h [
    | inl here ↦ inr (rw e (inl here))
    | inr later ↦ elim (others-rest latest id posts later) [
      | inl same ↦ inl same
      | inr there ↦ inr (rw e (inr there))
    ]
  ]
]

All-In : (P : ℤ → Type 0) (posts : List ℤ) (id : ℤ) → All P posts → In id posts → P id
All-In P [] id all h = absurd h
All-In P (x ∷ posts) id all (inl e) = rw e all.0
All-In P (x ∷ posts) id all (inr h) = All-In P posts id all.1 h

newest-In :
    (posts : List ℤ) (id : ℤ)
    → All IsPositive posts
    → In id posts
    → In (newest posts) posts × All (AtMost (newest posts)) posts × IsPositive (newest posts)
newest-In posts id positive h =
    let (_, all, found) = newest_from-bounds (pos 0) posts in
    elim found [
      | inr here ↦ (here, all, All-In IsPositive posts (newest posts) positive here)
      | inl start ↦ absurd (
          differ (
            sym (All-In IsPositive posts id positive h)
            ∙ (rw start at (All-In (AtMost (newest posts)) posts id all h))))
    ]
  where
    differ : true ≡ false → ⊥
    differ x = cc

-- For a scope that keeps the latest post and remembers comments with positive ids only, one at
-- least: RemoveEarlierPosts asks for the removal of every comment stored but the one with the
-- greatest id, never of that one, and remembers only that one.
pub remove_earlier_posts-newest :
    (removes : ℤ → Bool) (scope : Scope) (some_id : ℤ)
    → scope.latest ≡ true
    → All IsPositive scope.posts
    → In some_id scope.posts
    → In (newest scope.posts) scope.posts
      × All (AtMost (newest scope.posts)) scope.posts
      × (In (newest scope.posts) (earlier_posts scope) → ⊥)
      × ((id : ℤ) → In id scope.posts → (id ≡ newest scope.posts) ⊎ In id (earlier_posts scope))
      × ((remove_earlier_posts removes scope).1.posts ≡ newest scope.posts ∷ [])
unfolding remove_earlier_posts forget_earlier
remove_earlier_posts-newest removes scope some_id latest positive h =
    let (here, all, is_positive) = newest-In scope.posts some_id positive h in
    rw latest (
      here,
      all,
      others-apart (newest scope.posts) scope.posts,
      (λ id i. others-rest (newest scope.posts) id scope.posts i),
      rw is_positive,
    )
