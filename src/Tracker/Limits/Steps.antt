-- ===== src/Tracker/Limits/Steps.antt =====
-- rewrite/internal/tracker/github_limits.go, keep: an address that comes or goes.
use lass_das.Base.{
  ℕ, ◌+◌, ◌-◌, ◌≤◌, String, ◌==◌, ==→≡, ==_refl, Bool, true, false, ◌||◌, none, some, List, [], ◌∷◌,
  ◌++◌, ◌≡◌, refl, sym, ap, ◌∙◌, subst, if◌then◌else◌, ltb, length, is_some, lookup, contains_text,
  arith, Bool-cases, inl, inr,
}
use lass_das.Tracker.Limits.{
  KeptAnswer, Shared, kept_size, kept_count, delete_kept, remove_first, content_size, evict,
}
use lass_das.Tracker.Limits.Cache.{
  Kept, Nodup, total, Sound, ==_sym, lookup-delete_kept, total-same, contains-remove_first,
}

remove_first-Nodup : (a : String) (order : List String) → Nodup order → Nodup (remove_first a order)
unfolding remove_first
remove_first-Nodup a [] d = tt
remove_first-Nodup a (b ∷ order) d = elim (Bool-cases (b == a)) [
  | inl gone ↦ rw gone d.1
  | inr other ↦ rw other (
    contains-remove_first b a order d.1 ∙ rw (==_sym a b ∙ other, d.0) refl,
    remove_first-Nodup a order d.1,
  )
]

total-remove_first :
    (kept : Kept) (a : String) (order : List String)
    → contains_text a order ≡ true
    → total kept order ≡ content_size (lookup a kept) + total kept (remove_first a order)
unfolding total remove_first contains_text
total-remove_first kept a [] m = cc
total-remove_first kept a (b ∷ order) m = elim (Bool-cases (b == a)) [
  | inl gone ↦ rw (gone, ==→≡ b a gone) refl
  | inr other ↦ rw other (omega (arith, total-remove_first kept a order (rw other at m)))
]

pub deleted-other :
    (kept : Kept) (a k : String) → (a == k) ≡ false → lookup k (delete_kept a kept) ≡ lookup k kept
deleted-other kept a k other = lookup-delete_kept k a kept ∙ rw other refl

-- An address and its answer are taken out of a sound cache.
pub delete-Sound :
    (a : String) (order : List String) (kept : Kept) (size : ℕ)
    → contains_text a order ≡ true
    → Sound order kept size
    → Sound (remove_first a order) (delete_kept a kept) (size - content_size (lookup a kept))
delete-Sound a order kept size m s = record {
  distinct = remove_first-Nodup a order s.distinct;
  indexed = λ k. indexed k;
  counted = counted;
}
  where
    indexed :
        (k : String)
        → is_some (lookup k (delete_kept a kept)) ≡ contains_text k (remove_first a order)
    indexed k =
        ap is_some (lookup-delete_kept k a kept)
        ∙ by_test (a == k)
        ∙ sym (contains-remove_first k a order s.distinct)
      where
        by_test :
            (b : Bool)
            → is_some (if b then none else lookup k kept)
              ≡ (if b then false else contains_text k order)
        by_test true = refl
        by_test false = s.indexed k

    counted :
        size - content_size (lookup a kept) ≡ total (delete_kept a kept) (remove_first a order)
    counted = omega (
      arith,
      s.counted,
      total-remove_first kept a order m,
      total-same kept (delete_kept a kept) a (remove_first a order)
          (contains-remove_first a a order s.distinct ∙ rw (==_refl a) refl) (deleted-other kept a),
    )

pub contains-snoc :
    (k a : String) (order : List String)
    → contains_text k (order ++ a ∷ []) ≡ (contains_text k order || (a == k))
unfolding contains_text
contains-snoc k a [] = ground arith
contains-snoc k a (b ∷ order) = ground (arith, contains-snoc k a order)

snoc-Nodup :
    (a : String) (order : List String)
    → contains_text a order ≡ false
    → Nodup order
    → Nodup (order ++ a ∷ [])
unfolding contains_text
snoc-Nodup a [] n d = (refl, tt)
snoc-Nodup a (b ∷ order) n d = elim (Bool-cases (b == a)) [
  | inl same ↦ cc (rw same at n)
  | inr apart ↦ (
    contains-snoc b a order ∙ rw (d.0, ==_sym a b, apart) refl,
    snoc-Nodup a order (rw apart at n) d.1,
  )
]

total-snoc :
    (kept : Kept) (a : String) (order : List String)
    → total kept (order ++ a ∷ []) ≡ total kept order + content_size (lookup a kept)
unfolding total
total-snoc kept a [] = omega arith
total-snoc kept a (b ∷ order) = omega (arith, total-snoc kept a order)

lookup-cons :
    (k a : String) (x : KeptAnswer) (kept : Kept)
    → lookup k ((a, x) ∷ kept) ≡ (if a == k then some x else lookup k kept)
unfolding lookup
lookup-cons k a x kept = refl

-- A new address joins a sound cache.
pub add-Sound :
    (a : String) (x : KeptAnswer) (order : List String) (kept : Kept) (size : ℕ)
    → contains_text a order ≡ false
    → Sound order kept size
    → Sound (order ++ a ∷ []) ((a, x) ∷ kept) (size + length x.content)
unfolding content_size
add-Sound a x order kept size n s = record {
  distinct = snoc-Nodup a order n s.distinct;
  indexed =
      λ k. ap is_some (lookup-cons k a x kept) ∙ by_test k (a == k) ∙ sym (contains-snoc k a order);
  counted = omega (
    arith,
    s.counted,
    total-snoc ((a, x) ∷ kept) a order,
    new_size,
    total-same kept ((a, x) ∷ kept) a order n (λ k e. lookup-cons k a x kept ∙ rw e refl),
  );
}
  where
    found : lookup a ((a, x) ∷ kept) ≡ some x
    found = lookup-cons a a x kept ∙ rw (==_refl a) refl

    new_size : content_size (lookup a ((a, x) ∷ kept)) ≡ length x.content
    new_size = rw found refl

    by_test :
        (k : String) (b : Bool)
        → is_some (if b then some x else lookup k kept) ≡ (contains_text k order || b)
    by_test k true = ground arith
    by_test k false = s.indexed k ∙ ground arith

abbrev pub IsSound : Shared → Type 0
IsSound s = Sound s.order s.kept s.size

-- No more than the bounds allow.
abbrev pub IsBounded : Shared → Type 0
IsBounded s = (length s.order ≤ kept_count) × (s.size ≤ kept_size)

first_known : (a : String) (order : List String) → contains_text a (a ∷ order) ≡ true
unfolding contains_text
first_known a order = rw (==_refl a) refl

first_removed : (a : String) (order : List String) → remove_first a (a ∷ order) ≡ order
unfolding remove_first
first_removed a order = rw (==_refl a) refl

-- The oldest address goes.
pub oldest-Sound :
    (a : String) (order : List String) (kept : Kept) (size : ℕ)
    → Sound (a ∷ order) kept size
    → Sound order (delete_kept a kept) (size - content_size (lookup a kept))
oldest-Sound a order kept size s =
    subst (λ o. Sound o (delete_kept a kept) (size - content_size (lookup a kept)))
      (first_removed a order) (delete-Sound a (a ∷ order) kept size (first_known a order) s)

pub evict-IsSound :
    (order : List String) (kept : Kept) (size : ℕ) (s : Shared)
    → Sound order kept size
    → IsSound (evict order kept size s) × IsBounded (evict order kept size s)
unfolding evict total
evict-IsSound [] kept size s sound = (sound, (omega arith, omega (arith, sound.counted)))
evict-IsSound (a ∷ order) kept size s sound =
    elim (Bool-cases (ltb kept_count (length (a ∷ order)) || ltb kept_size size)) [
      | inr fits ↦ rw fits (sound, (ground (arith, fits), ground (arith, fits)))
      | inl full ↦ rw full (
          evict-IsSound order (delete_kept a kept) (size - content_size (lookup a kept)) s
            (oldest-Sound a order kept size sound))
    ]
