-- ===== src/Tracker/Limits/Cache.antt =====
-- rewrite/internal/tracker/github_limits.go, keep and recall: the map, the order and the size.
use lass_das.Base.{
  ℕ, ◌+◌, String, ◌==◌, ==→≡, ≡→==, false, none, List, [], ◌∷◌, ◌≡◌, refl, sym, ◌∙◌, subst,
  if◌then◌else◌, is_some, lookup, contains_text, arith, Bool-cases, inl, inr,
}
use lass_das.Tracker.Limits.{KeptAnswer, delete_kept, remove_first, content_size}

abbrev pub Kept : Type 0
Kept = List (String × KeptAnswer)

abbrev pub Nodup : List String → Type 0
Nodup [] = Unit
Nodup (a ∷ order) = (contains_text a order ≡ false) × Nodup order

-- The bytes of the answers at the addresses.
unfoldable pub total : Kept → List String → ℕ
total kept [] = 0
total kept (a ∷ order) = content_size (lookup a kept) + total kept order

-- The order holds each address of the map once, and the size is that of the answers.
pub record Sound (order : List String) (kept : Kept) (size : ℕ) : Type 0 where
  pub distinct : Nodup order
  pub indexed : (k : String) → is_some (lookup k kept) ≡ contains_text k order
  pub counted : size ≡ total kept order

pub ==_sym : (a b : String) → (a == b) ≡ (b == a)
==_sym a b = elim (Bool-cases (a == b)) [
  | inl same ↦ rw (same, ≡→== b a (sym (==→≡ a b same))) refl
  | inr apart ↦ elim (Bool-cases (b == a)) [
    | inr other ↦ rw (apart, other) refl
    | inl same ↦ cc (≡→== a b (sym (==→≡ b a same)))
  ]
]

pub lookup-delete_kept :
    (k a : String) (kept : Kept)
    → lookup k (delete_kept a kept) ≡ (if a == k then none else lookup k kept)
unfolding lookup delete_kept
lookup-delete_kept k a [] = ground arith
lookup-delete_kept k a ((b, x) ∷ kept) = elim (Bool-cases (b == a)) [
  | inr other ↦ elim (Bool-cases (b == k)) [
    | inr apart ↦ rw (other, apart) (lookup-delete_kept k a kept)
    | inl same ↦
        let no_match : (a == k) ≡ false =
          ==_sym a k ∙ subst (λ c. (c == a) ≡ false) (==→≡ b k same) other in
        rw (other, same, no_match) refl
  ]
  | inl gone ↦ elim (Bool-cases (a == k)) [
    | inl same ↦ rw gone (lookup-delete_kept k a kept ∙ rw same refl)
    | inr apart ↦
        let passed : (b == k) ≡ false = subst (λ c. (c == k) ≡ false) (sym (==→≡ b a gone)) apart in
        rw gone (lookup-delete_kept k a kept ∙ rw (apart, passed) refl)
  ]
]

pub total-same :
    (kept kept' : Kept) (a : String) (order : List String)
    → contains_text a order ≡ false
    → ((k : String) → (a == k) ≡ false → lookup k kept' ≡ lookup k kept)
    → total kept' order ≡ total kept order
unfolding total contains_text
total-same kept kept' a [] n h = refl
total-same kept kept' a (b ∷ order) n h = elim (Bool-cases (b == a)) [
  | inl same ↦ cc (rw same at n)
  | inr apart ↦ rw (h b (==_sym a b ∙ apart), total-same kept kept' a order (rw apart at n) h) refl
]

pub contains-remove_first :
    (k a : String) (order : List String)
    → Nodup order
    → contains_text k (remove_first a order) ≡ (if a == k then false else contains_text k order)
unfolding contains_text remove_first
contains-remove_first k a [] d = ground arith
contains-remove_first k a (b ∷ order) d = elim (Bool-cases (b == a)) [
  | inl gone ↦ elim (Bool-cases (a == k)) [
    | inl same ↦
        rw (gone, same)
          (subst (λ c. contains_text c order ≡ false) (==→≡ b a gone ∙ ==→≡ a k same) d.0)
    | inr apart ↦ rw (gone, apart, subst (λ c. (c == k) ≡ false) (sym (==→≡ b a gone)) apart) refl
  ]
  | inr other ↦ elim (Bool-cases (b == k)) [
    | inr apart ↦ rw (other, apart) (contains-remove_first k a order d.1)
    | inl same ↦
        let no_match : (a == k) ≡ false =
          ==_sym a k ∙ subst (λ c. (c == a) ≡ false) (==→≡ b k same) other in
        rw (other, same, no_match) refl
  ]
]
