-- ===== src/Engine/Notices/Old.antt =====
-- rewrite/cmd/engine/notice.go, post and startNoticeKinds: what is not said, and from when on a kind is said.
use lass_das.Base.{
  String, ◌==◌, ==→≡, Bool, true, false, not, ◌&&◌, none, some, List, [], ◌∷◌, ◌++◌, ◌≡◌, ◌⊎◌, inl,
  inr, refl, ap, ◌∙◌, if◌then◌else◌, ltb, In, arith, Bool-cases, lookup_or, contains_text, subst,
}
use lass_das.Chain.Types.{Time}
use lass_das.Engine.Pause.{Write, stored, written, lost}
use lass_das.Engine.Notices.{NoticeRecord, NoticeLog, pending_notice, once_notice, notice_due}
use lass_das.Engine.Notices.Settle.{Site, save_log}
use lass_das.Engine.Notices.Kinds.{
  NoticeKinds, kind_since, kind_start, put_kinds, start_kinds, drop_kinds, start_notice_kinds,
}
use lass_das.Engine.Notices.Due.{notice_due-once}
use lass_das.Engine.Notices.Saying.{
  Notice, Saying, predating, no_notice_record, event_time, say_since, compose_and_say, say_pending,
  say_as, fixed_words, post,
}

-- A write of the record changes nothing at the issue.
save_log-sent :
    (w : Write) (log : NoticeLog) (site : Site)
    → ((save_log w log site).sent ≡ site.sent) × ((save_log w log site).comments ≡ site.comments)
unfolding save_log
save_log-sent stored log site = (refl, refl)
save_log-sent written log site = (refl, refl)
save_log-sent lost log site = (refl, refl)

own_time :
    (n : Notice) (now : Time) → (n.kind == "queue-disk-usage") ≡ false → event_time n now ≡ n.at
unfolding event_time
own_time n now other = rw other refl

say_since-old :
    (n : Notice) (w : Saying) (r : NoticeRecord) (since : Time) (site : Site)
    → (n.kind == "queue-disk-usage") ≡ false
    → ltb n.at since ≡ true
    → ((say_since n w r (some since) site).0.sent ≡ site.sent)
      × ((say_since n w r (some since) site).0.comments ≡ site.comments)
unfolding say_since
say_since-old n w r since site other old =
    elim (Bool-cases (not (once_notice n.kind) && (r.models == ""))) [
      | inl again ↦ rw (own_time n w.now other, old, again) (refl, refl)
      | inr once ↦
          rw (own_time n w.now other, old, once)
            (save_log-sent w.log_write (site.log ++ predating n r w.now ∷ []) site)
    ]

-- Where no notice is left to settle: what happened before its kind began is not said, and neither is a
-- kind that is said once and of which the log has a record.
pub post-old :
    (approval : Bool) (kind text : String) (at : Time) (w : Saying) (site : Site)
    → (kinds : NoticeKinds) → pending_notice site.log ≡ none
    → (kind == "queue-disk-usage") ≡ false
    → ((ltb 0 (lookup_or 0 kind kinds) && ltb at (lookup_or 0 kind kinds)) ≡ true)
      ⊎ ((once_notice kind ≡ true) × ((r : NoticeRecord) × In r site.log × (r.kind ≡ kind)))
    → ((post approval kind text at w site kinds).0.0.sent ≡ site.sent)
      × ((post approval kind text at w site kinds).0.0.comments ≡ site.comments)
unfolding post say_as say_pending compose_and_say kind_since fixed_words
post-old approval kind text at w site kinds settled other (inr (once, (r, m, k))) =
    rw (settled, notice_due-once site.log kind w.now r once m k) (refl, refl)
post-old approval kind text at w site kinds settled other (inl old) =
    elim (Bool-cases (notice_due site.log kind w.now)) [
      | inr said ↦ rw (settled, said) (refl, refl)
      | inl due ↦
          rw (settled, due, began)
            (say_since-old n w (record no_notice_record { kind = kind; text = text })
              (lookup_or 0 kind kinds) site other (ground (arith, old)))
    ]
  where
    began : ltb 0 (lookup_or 0 kind kinds) ≡ true
    began = ground (arith, old)

    n : Notice
    n = record {
      approval = approval;
      record_only = false;
      kind = kind;
      event = "";
      at = at;
      compose = fixed_words kind text;
    }

lookup-drop_kinds :
    (postable : List String) (kind : String) (kinds : NoticeKinds)
    → lookup_or 0 kind (drop_kinds postable kinds)
      ≡ (if contains_text kind postable then lookup_or 0 kind kinds else 0)
unfolding drop_kinds lookup_or
lookup-drop_kinds postable kind [] = ground arith
lookup-drop_kinds postable kind ((other, since) ∷ kinds) = elim (Bool-cases (other == kind)) [
  | inl same ↦ elim (Bool-cases (contains_text other postable)) [
    | inl kept ↦ rw (kept, same, for_kind same kept) refl
    | inr dropped ↦
        rw (dropped, for_kind same dropped)
          (lookup-drop_kinds postable kind kinds
            ∙ ap (λ b. if b then lookup_or 0 kind kinds else 0) (for_kind same dropped))
  ]
  | inr apart ↦ elim (Bool-cases (contains_text other postable)) [
    | inl kept ↦ rw (kept, apart) (lookup-drop_kinds postable kind kinds)
    | inr dropped ↦ rw (dropped, apart) (lookup-drop_kinds postable kind kinds)
  ]
]
  where
    for_kind :
        {b : Bool}
        → (other == kind) ≡ true
        → contains_text other postable ≡ b
        → contains_text kind postable ≡ b
    for_kind {b} same c = subst (λ k. contains_text k postable ≡ b) (==→≡ other kind same) c

-- The start of a kind: the one that it has, or now.
abbrev pub since_or : Time → Time → Time
since_or now since = if ltb 0 since then since else kind_start now

lookup-cons :
    (kind other : String) (at : Time) (kinds : NoticeKinds)
    → lookup_or 0 kind ((other, at) ∷ kinds)
      ≡ (if other == kind then at else lookup_or 0 kind kinds)
unfolding lookup_or
lookup-cons kind other at kinds = refl

since_or_twice : (now since : Time) → since_or now (since_or now since) ≡ since_or now since
since_or_twice now since = ground arith

added : Time → String → NoticeKinds → NoticeKinds
added now other kinds =
    if ltb 0 (lookup_or 0 other kinds) then kinds else (other, kind_start now) ∷ kinds

lookup-added :
    (now : Time) (other kind : String) (kinds : NoticeKinds)
    → lookup_or 0 kind (added now other kinds)
      ≡ (if other == kind then since_or now (lookup_or 0 kind kinds) else lookup_or 0 kind kinds)
unfolding added
lookup-added now other kind kinds = elim (Bool-cases (other == kind)) [
  | inr apart ↦ elim (Bool-cases (ltb 0 (lookup_or 0 other kinds))) [
    | inl began ↦ rw (began, apart) refl
    | inr missing ↦ rw (missing, lookup-cons kind other (kind_start now) kinds, apart) refl
  ]
  | inl same ↦ elim (Bool-cases (ltb 0 (lookup_or 0 other kinds))) [
    | inl began ↦ rw (began, same, for_kind began same) refl
    | inr missing ↦
        rw (missing, lookup-cons kind other (kind_start now) kinds, same, for_kind missing same)
          refl
  ]
]
  where
    for_kind :
        {b : Bool}
        → ltb 0 (lookup_or 0 other kinds) ≡ b
        → (other == kind) ≡ true
        → ltb 0 (lookup_or 0 kind kinds) ≡ b
    for_kind {b} e same = subst (λ k. ltb 0 (lookup_or 0 k kinds) ≡ b) (==→≡ other kind same) e

lookup-start_kinds :
    (now : Time) (postable : List String) (kind : String) (kinds : NoticeKinds)
    → lookup_or 0 kind (start_kinds now postable kinds) ≡ (
        if contains_text kind postable
        then since_or now (lookup_or 0 kind kinds)
        else lookup_or 0 kind kinds)
unfolding start_kinds contains_text added
lookup-start_kinds now [] kind kinds = refl
lookup-start_kinds now (other ∷ postable) kind kinds =
    lookup-start_kinds now postable kind (added now other kinds)
    ∙ ap (λ since. if contains_text kind postable then since_or now since else since)
        (lookup-added now other kind kinds)
    ∙ both
  where
    both :
        (if contains_text kind postable
          then since_or now (
              if other == kind
              then since_or now (lookup_or 0 kind kinds)
              else lookup_or 0 kind kinds)
          else if other == kind
          then since_or now (lookup_or 0 kind kinds)
          else lookup_or 0 kind kinds)
        ≡ (if (if other == kind then true else contains_text kind postable)
            then since_or now (lookup_or 0 kind kinds)
            else lookup_or 0 kind kinds)
    both = elim (Bool-cases (other == kind)) [
      | inr apart ↦ rw apart refl
      | inl same ↦ elim (Bool-cases (contains_text kind postable)) [
        | inl again ↦ rw (same, again) (since_or_twice now (lookup_or 0 kind kinds))
        | inr first ↦ rw (same, first) refl
      ]
    ]

-- Where the queue's record is written: a kind that the engine posts keeps its start, or begins now if it has
-- none, and a kind that it does not post has no start.
pub start_notice_kinds-since :
    (now : Time) (postable : List String) (kind : String) (kinds : NoticeKinds)
    → lookup_or 0 kind (start_notice_kinds stored now postable kinds)
      ≡ (if contains_text kind postable then since_or now (lookup_or 0 kind kinds) else 0)
unfolding start_notice_kinds put_kinds
start_notice_kinds-since now postable kind kinds =
    lookup-drop_kinds postable kind (start_kinds now postable kinds)
    ∙ elim (Bool-cases (contains_text kind postable)) [
      | inl posted ↦ rw posted (lookup-start_kinds now postable kind kinds ∙ rw posted refl)
      | inr dropped ↦ rw dropped refl
    ]
