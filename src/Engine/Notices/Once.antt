-- ===== src/Engine/Notices/Once.antt =====
-- rewrite/cmd/engine/notice.go, settle: how often a notice is stored at the issue.
use lass_das.Base.{
  ℕ, zero, suc, String, ◌==◌, Bool, true, false, ◌&&◌, ◌||◌, Option, none, some, List, [], ◌∷◌, ◌≡◌,
  ◌⊎◌, inl, inr, refl, ap, ◌∙◌, ℤ, pos, less_int, is_zero, get_elem?, take, any, any-append_right,
  length, length-append, arith, Bool-cases, positive_above, less_asym,
}
use lass_das.Engine.Comments.{Comment}
use lass_das.Engine.Pause.{Write, stored, written, lost}
use lass_das.Engine.Notices.{NoticeRecord, NoticeLog}
use lass_das.Engine.Notices.Settle.{
  Site, Answers, Sending, answered, failed, set, save_log, confirm, posted_in, posted_after,
  confirmed_before, store_comment, store_failed, confirm_found, submit, is_refusal, engine_comment,
}

take-set : {A : Type 0} (xs : List A) (i : ℕ) (v : A) → take i (set xs i v) ≡ take i xs
unfolding set
take-set [] i v = refl
take-set (x ∷ xs) zero v = refl
take-set (x ∷ xs) (suc i) v = ap (λ rest. x ∷ rest) (take-set xs i v)

get_elem?-set :
    {A : Type 0} (xs : List A) (i : ℕ) (v w : A)
    → get_elem? xs i ≡ some w
    → get_elem? (set xs i v) i ≡ some v
unfolding set
get_elem?-set [] i v w e = cc
get_elem?-set (x ∷ xs) zero v w e = refl
get_elem?-set (x ∷ xs) (suc i) v w e = get_elem?-set xs i v w e

-- No point after which a notice is looked for lies below 0.
pub confirmed_before-positive :
    (kind : String) (after : ℤ) (log : NoticeLog)
    → less_int after (pos 0) ≡ false
    → less_int (confirmed_before kind after log) (pos 0) ≡ false
unfolding confirmed_before
confirmed_before-positive kind after [] h = h
confirmed_before-positive kind after (r ∷ log) h =
    elim (Bool-cases ((r.kind == kind) && less_int after r.comment_id)) [
      | inr kept ↦ rw kept (confirmed_before-positive kind after log h)
      | inl later ↦ rw later (
          confirmed_before-positive kind r.comment_id log (
            less_asym (pos 0) r.comment_id
              (positive_above after r.comment_id h (ground (arith, later)))))
    ]

-- Where the words are at the issue behind `after`, or were found before, they are found.
pub posted_in-positive :
    (text : String) (after found : ℤ) (comments : List Comment)
    → less_int after (pos 0) ≡ false
    → (less_int (pos 0) found
        || any (λ (c : Comment). (c.body == text) && less_int after c.id) comments)
      ≡ true
    → less_int (pos 0) (posted_in false (pos 0) text after found comments) ≡ true
unfolding posted_in
posted_in-positive text after found [] h v = ground (arith, v)
posted_in-positive text after found (c ∷ comments) h v =
    elim (Bool-cases ((c.body == text) && less_int after c.id)) [
      | inl here ↦ rw (takes here) (
          posted_in-positive text after c.id comments h
            (rw (positive_above after c.id h (ground (arith, here))) refl))
      | inr other ↦
          rw (passes other)
            (posted_in-positive text after found comments h (ground (arith, v, other)))
    ]
  where
    takes :
        ((c.body == text) && less_int after c.id) ≡ true
        → (less_int after c.id && (c.body == text) && true) ≡ true
    takes e = ground (arith, e)

    passes :
        ((c.body == text) && less_int after c.id) ≡ false
        → (less_int after c.id && (c.body == text) && true) ≡ false
    passes e = ground (arith, e)

-- The ids under which the tracker stores a comment are newer than one that it gave before.
abbrev pub IsNewer : ℤ → Sending → Type 0
IsNewer after (answered id told also) = less_int after id ≡ true
IsNewer after (failed status none) = Unit
IsNewer after (failed status (some id)) = less_int after id ≡ true

module _ (i : ℕ) (past : NoticeLog) (kind text : String) (n : ℕ) where
  abbrev pub after : ℤ
  after = confirmed_before kind (pos 0) past

  -- The notice can be read at the issue.
  abbrev pub is_visible : Site → Bool
  is_visible site = any (λ (c : Comment). (c.body == text) && less_int after c.id) site.comments

  -- What every attempt keeps: the earlier records, the words, and how often they were stored.
  pub record Kept (site : Site) : Type 0 where
    pub before : take i site.log ≡ past
    pub recorded :
        (q : NoticeRecord) × (get_elem? site.log i ≡ some q)
        × ((q.kind == kind) ≡ true)
        × ((q.text == text) ≡ true)
    pub counted : (length site.sent ≡ n) ⊎ ((length site.sent ≡ suc n) × (is_visible site ≡ true))

  -- A record that says the same.
  abbrev pub Same : NoticeRecord → Type 0
  Same q = ((q.kind == kind) ≡ true) × ((q.text == text) ≡ true)

  pub save-Kept :
      (w : Write) (site : Site) (q : NoticeRecord)
      → Kept site
      → Same q
      → Kept (save_log w (set site.log i q) site)
  unfolding save_log
  save-Kept stored site q k s = record {
    before = take-set site.log i q ∙ k.before;
    recorded = (q, get_elem?-set site.log i q k.recorded.0 k.recorded.1, s.0, s.1);
    counted = k.counted;
  }
  save-Kept written site q k s = record {
    before = take-set site.log i q ∙ k.before;
    recorded = (q, get_elem?-set site.log i q k.recorded.0 k.recorded.1, s.0, s.1);
    counted = k.counted;
  }
  save-Kept lost site q k s = k

  pub confirm-Kept :
      (a : Answers) (site : Site) (q : NoticeRecord) (id : ℤ)
      → Kept site
      → Same q
      → Kept (confirm a i q id site).0
  unfolding confirm
  confirm-Kept a site q id k s =
      save-Kept a.last_write site (record q { posted_at = some a.now; comment_id = id }) k s

  -- The words are stored where they were not.
  store-Kept :
      (a : Answers) (site : Site) (words : String) (id : ℤ)
      → Kept site
      → length site.sent ≡ n
      → (words == text) ≡ true
      → less_int after id ≡ true
      → Kept (store_comment a words id site)
  unfolding store_comment
  store-Kept a site words id k e same newer = record {
    before = k.before;
    recorded = k.recorded;
    counted = inr (
      omega (arith, length-append site.sent (words ∷ []), e),
      any-append_right _ site.comments (engine_comment a id words ∷ [])
          (ground (arith, same, newer)),
    );
  }

  found-Kept :
      (a : Answers) (site : Site) (q : NoticeRecord) (id : Option ℤ)
      → Kept site
      → Same q
      → Kept (confirm_found a i q id site).0
  unfolding confirm_found
  found-Kept a site q none k s = k
  found-Kept a site q (some id) k s = elim (Bool-cases (is_zero id)) [
    | inl unseen ↦ rw unseen k
    | inr seen ↦ rw seen (confirm-Kept a site q id k s)
  ]

  failed-Kept :
      (a : Answers) (site : Site) (words : String) (status : ℕ) (landed : Option ℤ)
      → Kept site
      → length site.sent ≡ n
      → (words == text) ≡ true
      → IsNewer after (failed status landed)
      → Kept (store_failed a words landed site)
  unfolding store_failed
  failed-Kept a site words status none k e same newer = k
  failed-Kept a site words status (some id) k e same newer =
      store-Kept a site words id k e same newer

  pub submit-Kept :
      (a : Answers) (site : Site) (q : NoticeRecord) (sending : Sending)
      → Kept site
      → Same q
      → length site.sent ≡ n
      → IsNewer after sending
      → Kept (submit false a i q after sending site).0
  unfolding submit
  submit-Kept a site q (answered id told also) k s e newer =
      confirm-Kept a (store_comment a q.text id site) (record q { also = also }) told
        (store-Kept a site q.text id k e s.1 newer) s
  submit-Kept a site q (failed status landed) k s e newer =
      let k' = failed-Kept a site q.text status landed k e s.1 newer in
      elim (Bool-cases (is_refusal q status)) [
        | inl refused ↦ rw refused (
            save-Kept a.last_write (store_failed a q.text landed site)
              (record q { obsolete = true }) k' s)
        | inr lost_answer ↦ rw lost_answer (
            found-Kept a (store_failed a q.text landed site) q
              (posted_after false a a.can_read_again q.text after
                (store_failed a q.text landed site).comments)
              k' s)
      ]
