-- ===== src/Tracker/Limits/Recalled.antt =====
-- rewrite/internal/tracker/github_limits.go, keep and recall: what is recalled.
use lass_das.Base.{
  ℕ, ◌+◌, ◌-◌, ◌≤◌, String, ◌==◌, ==_refl, false, ◌||◌, some, List, [], ◌∷◌, ◌++◌, ◌≡◌, refl, ◌∙◌,
  ltb, length, lookup, contains_text, arith, Bool-cases, inl, inr,
}
use lass_das.Tracker.Limits.{
  KeptAnswer, Shared, kept_item, kept_size, kept_count, recall, delete_kept, content_size,
  forget_found, forget, evict, add_kept, keep,
}
use lass_das.Tracker.Limits.Cache.{Kept, total, Sound, ==_sym}
use lass_das.Tracker.Limits.Steps.{IsSound, deleted-other, contains-snoc, add-Sound, oldest-Sound}
use lass_das.Tracker.Limits.Bounded.{forget_found-IsSound}

lookup-first : (a : String) (x : KeptAnswer) (kept : Kept) → lookup a ((a, x) ∷ kept) ≡ some x
unfolding lookup
lookup-first a x kept = rw (==_refl a) refl

single_total :
    (kept : Kept) (a : String) (x : KeptAnswer)
    → lookup a kept ≡ some x
    → total kept (a ∷ []) ≡ length x.content
unfolding total content_size
single_total kept a x e = rw e (omega arith)

-- The newest address outlasts every other.
evict-newest :
    (order : List String) (a : String) (x : KeptAnswer) (kept : Kept) (size : ℕ) (s : Shared)
    → Sound (order ++ a ∷ []) kept size
    → lookup a kept ≡ some x
    → length x.content ≤ kept_item
    → lookup a (evict (order ++ a ∷ []) kept size s).kept ≡ some x
unfolding evict
evict-newest [] a x kept size s sound e small =
    rw (only (sound.counted ∙ single_total kept a x e)) e
  where
    only :
        size ≡ length x.content → (ltb kept_count (length (a ∷ [])) || ltb kept_size size) ≡ false
    only c = ground (arith, c, small)
evict-newest (b ∷ order) a x kept size s sound e small =
    elim (Bool-cases (ltb kept_count (length (b ∷ (order ++ a ∷ []))) || ltb kept_size size)) [
      | inr fits ↦ rw fits e
      | inl full ↦ rw full (
          evict-newest order a x (delete_kept b kept) (size - content_size (lookup b kept)) s
            (oldest-Sound b (order ++ a ∷ []) kept size sound)
            (deleted-other kept b a (apart sound.distinct.0) ∙ e) small)
    ]
  where
    apart : contains_text b (order ++ a ∷ []) ≡ false → (b == a) ≡ false
    apart n = ground (arith, ==_sym a b, contains-snoc b a order, n)

-- What is kept is recalled: an answer with a validator and not too long, from a cache that is sound.
pub recall-keep :
    (address : String) (a : KeptAnswer) (s : Shared)
    → IsSound s
    → (a.etag == "") ≡ false
    → length a.content ≤ kept_item
    → recall address (keep address a s) ≡ some a
unfolding recall keep forget add_kept
recall-keep address a s sound tagged small = rw (kept tagged) newest
  where
    kept : (a.etag == "") ≡ false → ((a.etag == "") || ltb kept_item (length a.content)) ≡ false
    kept e = ground (arith, e, small)

    before : Shared
    before = forget_found address (lookup address s.kept) s

    newest :
        lookup address
          (evict
            (before.order ++ address ∷ [])
            ((address, a) ∷ before.kept)
            (before.size + length a.content)
            before).kept
        ≡ some a
    newest =
        let (sound', fresh) = forget_found-IsSound address (lookup address s.kept) s refl sound in
        evict-newest before.order address a ((address, a) ∷ before.kept)
          (before.size + length a.content) before
          (add-Sound address a before.order before.kept before.size fresh sound')
          (lookup-first address a before.kept) small
