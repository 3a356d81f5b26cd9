-- ===== src/Engine/Notices/Due.antt =====
-- rewrite/cmd/engine/notice.go, noticeDue: what a record of a kind settles.
use mathlib.Core.List.{reverse, reverse-append}
use lass_das.Base.{
  String, ◌==◌, ==→≡, ≡→==, sym, ap, ◌∙◌, true, false, ◌&&◌, ◌||◌, List, [], ◌∷◌, ◌++◌, ◌≡◌, refl,
  inl, inr, In, Bool-cases,
}
use lass_das.Chain.Types.{Time}
use lass_das.Engine.Notices.{
  NoticeRecord, NoticeLog, once_notice, notice_due, due_again, next_budget,
}

-- A kind that has a record among the later ones is not said again, if it is said once.
due_again-once :
    (log : NoticeLog) (kind : String) (now : Time) (r : NoticeRecord)
    → once_notice kind ≡ true
    → In r log
    → r.kind ≡ kind
    → due_again kind now log ≡ false
unfolding due_again
due_again-once [] kind now r o m k = absurd m
due_again-once (x ∷ log) kind now r o m k =
    elim (Bool-cases ((kind == "started") && (x.kind == "budget-restored"))) [
      | inl said ↦ rw said refl
      | inr unsaid ↦ elim (Bool-cases (x.kind == kind)) [
        | inl same ↦ rw (unsaid, same, o) refl
        | inr other ↦ rw (unsaid, other) (due_again-once log kind now r o (later m other) k)
      ]
    ]
  where
    later : In r (x ∷ log) → (x.kind == kind) ≡ false → In r log
    later (inr m) other = m
    later (inl e) other = cc (≡→== x.kind kind (sym (ap (λ (n : NoticeRecord). n.kind) e) ∙ k))

In-append_left : {A : Type 0} (a : A) (xs ys : List A) → In a xs → In a (xs ++ ys)
In-append_left a [] ys m = absurd m
In-append_left a (x ∷ xs) ys (inl e) = inl e
In-append_left a (x ∷ xs) ys (inr m) = inr (In-append_left a xs ys m)

In-append_right : {A : Type 0} (a : A) (xs ys : List A) → In a ys → In a (xs ++ ys)
In-append_right a [] ys m = m
In-append_right a (x ∷ xs) ys m = inr (In-append_right a xs ys m)

In-reverse : {A : Type 0} (a : A) (xs : List A) → In a xs → In a (reverse xs)
In-reverse a [] m = absurd m
In-reverse a (x ∷ xs) (inl e) =
    rw (reverse-append (x ∷ []) xs) (In-append_right a (reverse xs) (x ∷ []) (inl e))
In-reverse a (x ∷ xs) (inr m) =
    rw (reverse-append (x ∷ []) xs) (In-append_left a (reverse xs) (x ∷ []) (In-reverse a xs m))

once_not_budget :
    (kind : String)
    → once_notice kind ≡ true
    → ((kind == "budget-paused") || (kind == "budget-restored")) ≡ false
unfolding once_notice ◌==◌
once_not_budget kind o = elim (Bool-cases (kind == "budget-paused")) [
  | inl paused ↦ cc (rw (==→≡ kind "budget-paused" paused) at o)
  | inr other ↦ elim (Bool-cases (kind == "budget-restored")) [
    | inl restored ↦ cc (rw (==→≡ kind "budget-restored" restored) at o)
    | inr another ↦ rw (other, another) refl
  ]
]

-- A kind that is said once is not due where the log has a record of it, posted or not.
pub notice_due-once :
    (log : NoticeLog) (kind : String) (now : Time) (r : NoticeRecord)
    → once_notice kind ≡ true
    → In r log
    → r.kind ≡ kind
    → notice_due log kind now ≡ false
unfolding notice_due
notice_due-once log kind now r o m k =
    elim (Bool-cases ((kind == "started") && (next_budget (reverse log) == "budget-restored"))) [
      | inl waits ↦ rw (once_not_budget kind o, waits) refl
      | inr starts ↦
          rw (once_not_budget kind o, starts)
            (due_again-once (reverse log) kind now r o (In-reverse r log m) k)
    ]
