-- ===== src/Engine/Notices/Retry.antt =====
-- rewrite/cmd/engine/notice.go, settle: one attempt after another, with restarts in between.
use lass_das.Base.{
  ℕ, suc, String, ◌==◌, ==→≡, Bool, true, false, ◌&&◌, Option, none, some, List, [], ◌∷◌, ◌≡◌, ◌⊎◌,
  inl, inr, refl, sym, subst, ℤ, pos, less_int, map, any, length, arith, Bool-cases, some_inj,
}
use lass_das.Engine.Comments.{Comment, is_positive}
use lass_das.Engine.Notices.{NoticeRecord, NoticeLog}
use lass_das.Engine.Notices.Settle.{
  Site, Answers, posted_in, posted_after, submit_unseen, settle_new,
}
use lass_das.Engine.Notices.Rewrite.{rewrite_comment, edit_comment}
use lass_das.Engine.Notices.Once.{
  confirmed_before-positive, posted_in-positive, Kept, Same, is_visible, after, IsNewer,
  confirm-Kept, submit-Kept,
}

pub posted_after-some :
    (a : Answers) (readable : Bool) (text : String) (after id : ℤ) (comments : List Comment)
    → posted_after false a readable text after comments ≡ some id
    → posted_in false (pos 0) text after (pos 0) comments ≡ id
unfolding posted_after
posted_after-some a true text after id comments e = some_inj e
posted_after-some a false text after id comments e = cc

any-map :
    {A : Type 0} (p : A → Bool) (f : A → A) (xs : List A)
    → ((x : A) → p x ≡ true → p (f x) ≡ true)
    → any p xs ≡ true
    → any p (map f xs) ≡ true
any-map p f [] h v = cc
any-map p f (x ∷ xs) h v = elim (Bool-cases (p x)) [
  | inl here ↦ rw (h x here) refl
  | inr other ↦ ground (arith, any-map p f xs h (ground (arith, v, other)))
]

module _ (i : ℕ) (past : NoticeLog) (kind text : String) (n : ℕ) where
  abbrev pub point : ℤ
  point = after i past kind text n

  abbrev pub Keeps : Site → Type 0
  Keeps = Kept i past kind text n

  abbrev pub Says : NoticeRecord → Type 0
  Says = Same i past kind text n

  point_positive : less_int point (pos 0) ≡ false
  point_positive = confirmed_before-positive kind (pos 0) past refl

  -- Where the words are not found, they were not stored.
  unseen-unsent :
      (site : Site) (q : NoticeRecord) (id : ℤ)
      → Keeps site
      → Says q
      → posted_in false (pos 0) q.text point (pos 0) site.comments ≡ id
      → is_positive id ≡ false
      → length site.sent ≡ n
  unfolding is_positive
  unseen-unsent site q id k s e p = by_count k.counted
    where
      seen_positive : is_visible i past kind text n site ≡ true → less_int (pos 0) id ≡ true
      seen_positive v =
          subst (λ found. less_int (pos 0) found ≡ true) e
            (subst
              (λ words.
                less_int (pos 0) (posted_in false (pos 0) words point (pos 0) site.comments) ≡ true)
              (sym (==→≡ q.text text s.1))
              (posted_in-positive text point (pos 0) site.comments point_positive v))

      by_count :
          (length site.sent ≡ n)
            ⊎ ((length site.sent ≡ suc n) × (is_visible i past kind text n site ≡ true))
          → length site.sent ≡ n
      by_count (inl unsent) = unsent
      by_count (inr (sent, seen)) = cc (seen_positive seen)

  unseen-Kept :
      (a : Answers) (q : NoticeRecord) (found : Option ℤ) (site : Site)
      → Keeps site
      → Says q
      → IsNewer point a.sending
      → posted_after false a a.can_read q.text point site.comments ≡ found
      → Keeps (submit_unseen false a i q point found site).0
  unfolding submit_unseen
  unseen-Kept a q none site k s newer e = k
  unseen-Kept a q (some id) site k s newer e = elim (Bool-cases (is_positive id)) [
    | inl seen ↦ rw seen (confirm-Kept i past kind text n a site q id k s)
    | inr unseen ↦ rw unseen (
        submit-Kept i past kind text n a site q a.sending k s
          (unseen-unsent site q id k s
            (posted_after-some a a.can_read q.text point id site.comments e) unseen)
          newer)
  ]

  pub settle_new-Kept :
      (a : Answers) (q : NoticeRecord) (fresh : Bool) (site : Site)
      → Keeps site
      → Says q
      → IsNewer point a.sending
      → (fresh ≡ false) ⊎ (length site.sent ≡ n)
      → Keeps (settle_new false a i q point fresh site).0
  unfolding settle_new
  settle_new-Kept a q true site k s newer (inl no_matter) = cc
  settle_new-Kept a q true site k s newer (inr unsent) =
      submit-Kept i past kind text n a site q a.sending k s unsent newer
  settle_new-Kept a q false site k s newer first =
      unseen-Kept a q (posted_after false a a.can_read q.text point site.comments) site k s newer
        refl

  abbrev pub shown : Comment → Bool
  shown c = (c.body == text) && less_int point c.id

  rewrite-shown :
      (a : Answers) (q : NoticeRecord)
      → Says q
      → (c : Comment) → shown c ≡ true
      → shown (rewrite_comment a q c) ≡ true
  unfolding rewrite_comment
  rewrite-shown a q s c e = ground (arith, e, s)

  -- Rewriting a comment stores none, and takes the words from no comment that has them.
  pub edit_comment-Kept :
      (a : Answers) (q : NoticeRecord) (site : Site)
      → Keeps site
      → Says q
      → Keeps (edit_comment a q site)
  unfolding edit_comment
  edit_comment-Kept a q site k s = elim (Bool-cases a.edited) [
    | inr unchanged ↦ rw unchanged k
    | inl changed ↦
        rw changed
          (record { before = k.before; recorded = k.recorded; counted = counted k.counted })
  ]
    where
      counted :
          (length site.sent ≡ n) ⊎ ((length site.sent ≡ suc n) × (any shown site.comments ≡ true))
          → (length site.sent ≡ n)
            ⊎ ((length site.sent ≡ suc n)
                × (any shown (map (rewrite_comment a q) site.comments) ≡ true))
      counted (inl unsent) = inl unsent
      counted (inr (sent, seen)) =
          inr (sent, any-map shown (rewrite_comment a q) site.comments (rewrite-shown a q s) seen)
