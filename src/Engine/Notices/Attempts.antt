-- ===== src/Engine/Notices/Attempts.antt =====
-- rewrite/cmd/engine/notice.go, settle and flush: a notice over any number of attempts and restarts.
use lass_das.Base.{
  ℕ, suc, ◌≤◌, String, ◌==◌, ==_refl, ==→≡, Bool, true, false, not, ◌&&◌, Option, none, some, List,
  [], ◌∷◌, ◌++◌, ◌≡◌, ◌⊎◌, inl, inr, refl, sym, ap, ◌∙◌, subst, is_some, ℤ, pos, less_int, same_int,
  get_elem?, take, any, any-append_left, All, length, arith, Bool-cases, some_inj,
}
use lass_das.Engine.Comments.{Comment, is_positive}
use lass_das.Engine.Pause.{is_stored}
use lass_das.Engine.Notices.{NoticeRecord, NoticeLog}
use lass_das.Engine.Notices.Settle.{Site, Answers, set, save_log, posted_after, confirmed_before}
use lass_das.Engine.Notices.Rewrite.{
  edit_comment, may_edit, edit_target, edit_unanswered, give_up, edit_looked, edit, EditEnd, ends,
  renews, look, Look, itself, target, recorded_words, settle_edited, settle_record, settle_found,
  settle, before_id, Visit, visit, settle_all,
}
use lass_das.Engine.Notices.Once.{IsNewer, save-Kept, confirm-Kept}
use lass_das.Engine.Notices.Retry.{Keeps, Says, point, settle_new-Kept, edit_comment-Kept}

module _ (i : ℕ) (past : NoticeLog) (kind text : String) (n : ℕ) where
  abbrev InOrder : Site → Type 0
  InOrder = Keeps i past kind text n

  abbrev Told : NoticeRecord → Type 0
  Told = Says i past kind text n

  abbrev Ended : EditEnd → Type 0
  Ended (ends (site, ok)) = InOrder site
  Ended (renews site) = InOrder site

  give_up-Ended :
      (a : Answers) (q : NoticeRecord) (site : Site)
      → InOrder site
      → Told q
      → Ended (give_up a i q site)
  unfolding give_up
  give_up-Ended a q site k s = elim (Bool-cases (is_stored a.edits_write)) [
    | inl kept ↦ rw kept saved
    | inr cut ↦ rw cut saved
  ]
    where
      saved : InOrder (save_log a.edits_write (set site.log i (record q { edits = pos 0 })) site)
      saved = save-Kept i past kind text n a.edits_write site (record q { edits = pos 0 }) k s

  unanswered-Ended :
      (a : Answers) (q : NoticeRecord) (found : Option ℤ) (site : Site)
      → InOrder site
      → Told q
      → Ended (edit_unanswered a i q found site)
  unfolding edit_unanswered
  unanswered-Ended a q none site k s = k
  unanswered-Ended a q (some id) site k s = elim (Bool-cases (same_int id q.edits)) [
    | inl landed ↦ rw landed (confirm-Kept i past kind text n a site q id k s)
    | inr other ↦ rw other (give_up-Ended a q site k s)
  ]

  target-Ended :
      (a : Answers) (q : NoticeRecord) (found : Option Comment) (site : Site)
      → InOrder site
      → Told q
      → Ended (edit_target false a i q found site)
  unfolding edit_target
  target-Ended a q found site k s =
      let k' = edit_comment-Kept i past kind text n a q site k s in
      elim (Bool-cases (not (may_edit a found))) [
        | inl foreign ↦ rw foreign (give_up-Ended a q site k s)
        | inr own ↦ elim (Bool-cases a.edit_answered) [
          | inl heard ↦
              rw (own, heard)
                (confirm-Kept i past kind text n a (edit_comment a q site) q q.edits k' s)
          | inr unheard ↦
              rw (own, unheard)
                (unanswered-Ended a q
                  (posted_after false a a.can_read_edited q.text (before_id q.edits)
                    (edit_comment a q site).comments)
                  (edit_comment a q site) k' s)
        ]
      ]

  looked-Ended :
      (a : Answers) (q : NoticeRecord) (seen : Look) (site : Site)
      → InOrder site
      → Told q
      → Ended (edit_looked false a i q seen site)
  unfolding edit_looked
  looked-Ended a q (itself id) site k s = confirm-Kept i past kind text n a site q id k s
  looked-Ended a q (target found) site k s = target-Ended a q found site k s

  edit-Ended :
      (a : Answers) (q : NoticeRecord) (after : ℤ) (site : Site)
      → InOrder site
      → Told q
      → Ended (edit false a i q after site)
  unfolding edit
  edit-Ended a q after site k s = elim (Bool-cases (not a.can_read)) [
    | inl blind ↦ rw blind k
    | inr reads ↦ rw reads (
        looked-Ended a q
          (look q (recorded_words q.edits "" (take i site.log)) after none site.comments) site k s)
  ]

  edited-Kept :
      (a : Answers) (q : NoticeRecord) (end : EditEnd)
      → Ended end
      → Told q
      → IsNewer (point i past kind text n) a.sending
      → InOrder (settle_edited false a i q (point i past kind text n) end).0
  unfolding settle_edited
  edited-Kept a q (ends site) k s newer = k
  edited-Kept a q (renews site) k s newer =
      settle_new-Kept i past kind text n a (record q { edits = pos 0 }) false site k s newer
        (inl refl)

  record-Kept :
      (a : Answers) (q : NoticeRecord) (fresh : Bool) (site : Site)
      → InOrder site
      → Told q
      → confirmed_before q.kind (pos 0) (take i site.log) ≡ point i past kind text n
      → IsNewer (point i past kind text n) a.sending
      → (fresh ≡ false) ⊎ (length site.sent ≡ n)
      → InOrder (settle_record false a i q fresh site).0
  unfolding settle_record
  record-Kept a q fresh site k s e newer first = elim (Bool-cases (is_some q.posted_at)) [
    | inl posted ↦ rw posted k
    | inr unposted ↦ elim (Bool-cases (is_positive q.edits)) [
      | inl rewrites ↦
          rw (unposted, rewrites, e)
            (edited-Kept a q (edit false a i q (point i past kind text n) site)
              (edit-Ended a q (point i past kind text n) site k s) s newer)
      | inr anew ↦
          rw (unposted, anew, e) (settle_new-Kept i past kind text n a q fresh site k s newer first)
    ]
  ]

  found-Kept :
      (a : Answers) (fresh : Bool) (found : Option NoticeRecord) (site : Site)
      → InOrder site
      → get_elem? site.log i ≡ found
      → IsNewer (point i past kind text n) a.sending
      → (fresh ≡ false) ⊎ (length site.sent ≡ n)
      → InOrder (settle_found false a i fresh found site).0
  unfolding settle_found
  found-Kept a fresh none site k e newer first = k
  found-Kept a fresh (some q) site k e newer first =
      let (r, there, kinds, words) = k.recorded in
      let same : r ≡ q = some_inj (sym there ∙ e) in
      let said : Told q = subst Told same (kinds, words) in
      record-Kept a q fresh site k said
        (ap (λ log. confirmed_before q.kind (pos 0) log) k.before
          ∙ ap (λ name. confirmed_before name (pos 0) past) (==→≡ q.kind kind said.0))
        newer first

  visit-Kept :
      (fresh : Bool) (v : Visit) (site : Site)
      → InOrder site
      → IsNewer (point i past kind text n) v.answers.sending
      → (fresh ≡ false) ⊎ (length site.sent ≡ n)
      → InOrder (visit false i fresh v site)
  unfolding visit settle
  visit-Kept fresh v site k newer first =
      found-Kept v.answers fresh (get_elem? site.log i)
        (record site { comments = site.comments ++ v.others })
        (record { before = k.before; recorded = k.recorded; counted = counted k.counted }) refl
        newer first
    where
      shown : Comment → Bool
      shown c = (c.body == text) && less_int (point i past kind text n) c.id

      counted :
          (length site.sent ≡ n) ⊎ ((length site.sent ≡ suc n) × (any shown site.comments ≡ true))
          → (length site.sent ≡ n)
            ⊎ ((length site.sent ≡ suc n) × (any shown (site.comments ++ v.others) ≡ true))
      counted (inl unsent) = inl unsent
      counted (inr (sent, seen)) = inr (sent, any-append_left shown site.comments v.others seen)

  attempts-Kept :
      (fresh : Bool) (visits : List Visit) (site : Site)
      → InOrder site
      → All (λ (v : Visit). IsNewer (point i past kind text n) v.answers.sending) visits
      → (fresh ≡ false) ⊎ (length site.sent ≡ n)
      → InOrder (settle_all false i fresh visits site)
  unfolding settle_all
  attempts-Kept fresh [] site k newer first = k
  attempts-Kept fresh (v ∷ visits) site k newer first =
      attempts-Kept false visits (visit false i fresh v site)
        (visit-Kept fresh v site k newer.0 first) newer.1 (inl refl)

-- In a run without approvals, over a tracker whose new ids are above those its comments were confirmed as:
-- however often a notice is submitted again, wherever the engine ends in between, whichever answers do not
-- arrive, and whatever others write meanwhile, the engine stores at most one comment for it.
pub settle_all-once :
    (i : ℕ) (r : NoticeRecord) (fresh : Bool) (visits : List Visit) (site : Site)
    → get_elem? site.log i ≡ some r
    → All
        (λ (v : Visit).
          IsNewer (confirmed_before r.kind (pos 0) (take i site.log)) v.answers.sending)
        visits
    → length (settle_all false i fresh visits site).sent ≤ suc (length site.sent)
settle_all-once i r fresh visits site there newer =
    bound
      (attempts-Kept i (take i site.log) r.kind r.text (length site.sent) fresh visits site
        (record {
          before = refl;
          recorded = (r, there, ==_refl r.kind, ==_refl r.text);
          counted = inl refl;
        })
        newer (inr refl)).counted
  where
    bound :
        {P : Type 0}
        → (length (settle_all false i fresh visits site).sent ≡ length site.sent)
          ⊎ ((length (settle_all false i fresh visits site).sent ≡ suc (length site.sent)) × P)
        → length (settle_all false i fresh visits site).sent ≤ suc (length site.sent)
    bound (inl e) = omega (arith, e)
    bound (inr (e, p)) = omega (arith, e)
