-- ===== src/Tracker/Limits/Bounded.antt =====
-- rewrite/internal/tracker/github_limits.go, keep: what stays within bounds, and what is recalled.
use lass_das.Base.{
  ◌+◌, ◌-◌, ◌≤◌, String, ◌==◌, ==_refl, false, ◌||◌, Option, none, some, List, [], ◌∷◌, ◌++◌, ◌≡◌,
  refl, sym, ap, ◌∙◌, subst, ltb, length, is_some, lookup, contains_text, arith, Bool-cases, inl,
  inr,
}
use lass_das.Tracker.Limits.{
  KeptAnswer, Shared, kept_item, recall, delete_kept, remove_first, content_size, forget_found,
  forget, evict, add_kept, keep,
}
use lass_das.Tracker.Limits.Cache.{Sound, contains-remove_first}
use lass_das.Tracker.Limits.Steps.{IsSound, IsBounded, add-Sound, delete-Sound, evict-IsSound}

length-remove_first :
    (a : String) (order : List String) → length (remove_first a order) ≤ length order
unfolding remove_first
length-remove_first a [] = omega arith
length-remove_first a (b ∷ order) = ground (arith, length-remove_first a order)

pub forget_found-IsSound :
    (a : String) (o : Option KeptAnswer) (s : Shared)
    → lookup a s.kept ≡ o
    → IsSound s
    → IsSound (forget_found a o s) × (contains_text a (forget_found a o s).order ≡ false)
unfolding forget_found
forget_found-IsSound a none s e sound = (sound, sym (sound.indexed a) ∙ ap is_some e)
forget_found-IsSound a (some x) s e sound = (
  subst (λ o. Sound (remove_first a s.order) (delete_kept a s.kept) (s.size - content_size o)) e
      (delete-Sound a s.order s.kept s.size (sym (sound.indexed a) ∙ ap is_some e) sound),
  contains-remove_first a a s.order sound.distinct ∙ rw (==_refl a) refl,
)

forget_found-IsBounded :
    (a : String) (o : Option KeptAnswer) (s : Shared) → IsBounded s → IsBounded (forget_found a o s)
unfolding forget_found
forget_found-IsBounded a none s b = b
forget_found-IsBounded a (some x) s b = (omega (arith, length-remove_first a s.order), omega arith)

-- Where no more answers are kept than the bounds allow, the order holds each kept address once and the
-- size is that of the answers: it stays so, whatever answer is kept.
pub keep-IsBounded :
    (address : String) (a : KeptAnswer) (s : Shared)
    → IsSound s
    → IsBounded s
    → IsSound (keep address a s) × IsBounded (keep address a s)
unfolding keep forget recall add_kept
keep-IsBounded address a s sound bounded =
    elim (Bool-cases ((a.etag == "") || ltb kept_item (length a.content))) [
      | inl unkept ↦ rw unkept (
        (forget_found-IsSound address (lookup address s.kept) s refl sound).0,
        forget_found-IsBounded address (lookup address s.kept) s bounded,
      )
      | inr kept ↦ rw kept added
    ]
  where
    before : Shared
    before = forget_found address (lookup address s.kept) s

    added :
        IsSound (
          evict
            (before.order ++ address ∷ [])
            ((address, a) ∷ before.kept)
            (before.size + length a.content)
            before)
        × IsBounded (
            evict
              (before.order ++ address ∷ [])
              ((address, a) ∷ before.kept)
              (before.size + length a.content)
              before)
    added =
        let (sound', fresh) = forget_found-IsSound address (lookup address s.kept) s refl sound in
        evict-IsSound (before.order ++ address ∷ []) ((address, a) ∷ before.kept)
          (before.size + length a.content) before
          (add-Sound address a before.order before.kept before.size fresh sound')
