-- ===== src/Engine/WorkLimit/Latest.antt =====
-- rewrite/cmd/engine/pause.go: what is written to the latest pause keeps the record valid.
use lass_das.Base.{
  ap, ℤ, pos, negsuc, less_int, same_int, last?, is_some, ◌&&◌, ℕ, ◌<◌, Bool, true, false, not,
  Option, none, some, List, [], ◌∷◌, ◌≡◌, refl, inl, inr, Bool-cases, Option-cases, some_inj, arith,
}
use lass_das.Chain.Types.{Time}
use lass_das.Engine.WorkLimit.{
  PauseEpisode, ResumeMark, WorkLimit, is_stamped, valid_clock, valid_exits, valid_option,
  valid_pauses, valid_pause, valid_resume, is_applied, is_valid, is_held,
}
use lass_das.Engine.WorkLimit.Work.{
  on_latest, record_notice, new_mark, note_resume, take_resume, apply_mark, finish_pause, latest_is,
  reset_clock, reset_exits, apply_pause_resume,
}
use lass_das.Engine.WorkLimit.Valid.{IsSound, is_below}

-- A change of the latest episode keeps the episodes valid where it keeps that one valid.
on_latest-valid :
    (change : PauseEpisode → PauseEpisode) (pauses : List PauseEpisode)
    → ((p : PauseEpisode)
        → last? pauses ≡ some p
        → valid_pause p ≡ true
        → valid_pause (change p) ≡ true)
    → valid_pauses pauses ≡ true
    → valid_pauses (on_latest change pauses) ≡ true
unfolding valid_pauses on_latest
on_latest-valid change [] h v = refl
on_latest-valid change (p ∷ []) h v = h p refl v
on_latest-valid change (p ∷ q ∷ []) h v = ground (arith, v, h q refl (ground (arith, v)))
on_latest-valid change (p ∷ q ∷ q' ∷ pauses) h v =
    ground (arith, v, on_latest-valid change (q ∷ q' ∷ pauses) h (ground (arith, v)))

on_latest-held :
    (change : PauseEpisode → PauseEpisode) (pauses : List PauseEpisode)
    → ((p : PauseEpisode) → last? pauses ≡ some p → is_applied (change p) ≡ is_applied p)
    → latest_is (λ p. not (is_applied p)) (on_latest change pauses)
      ≡ latest_is (λ p. not (is_applied p)) pauses
unfolding on_latest
on_latest-held change [] h = refl
on_latest-held change (p ∷ []) h = ap not (h p refl)
on_latest-held change (p ∷ q ∷ []) h = ap not (h q refl)
on_latest-held change (p ∷ q ∷ q' ∷ pauses) h = on_latest-held change (q ∷ q' ∷ pauses) h

positive-not_negative : (n : ℤ) → less_int (pos 0) n ≡ true → not (less_int n (pos 0)) ≡ true
positive-not_negative (pos n) h = ground (arith, h)
positive-not_negative (negsuc n) h = cc

-- Other episodes in the place of those there are, holding the request as those did.
with_pauses-IsSound :
    (r : WorkLimit) (pauses : List PauseEpisode)
    → valid_pauses pauses ≡ true
    → latest_is (λ p. not (is_applied p)) pauses ≡ is_held r
    → IsSound r
    → IsSound (record r { pauses = pauses })
unfolding is_valid is_below is_held
with_pauses-IsSound r pauses v same s = rw (v, same) (ground (arith, s))

pauses_valid : (r : WorkLimit) → IsSound r → valid_pauses r.pauses ≡ true
unfolding is_valid
pauses_valid r s = ground (arith, s)

latest_is-last :
    (test : PauseEpisode → Bool) (pauses : List PauseEpisode) (p : PauseEpisode)
    → latest_is test pauses ≡ true
    → last? pauses ≡ some p
    → test p ≡ true
latest_is-last test pauses p h l = rw (latest_is, l) at h

last_valid :
    (pauses : List PauseEpisode) (p : PauseEpisode)
    → valid_pauses pauses ≡ true
    → last? pauses ≡ some p
    → valid_pause p ≡ true
unfolding valid_pauses
last_valid [] p v l = cc
last_valid (q ∷ []) p v l = rw (← some_inj l) v
last_valid (q ∷ q' ∷ pauses) p v l = last_valid (q' ∷ pauses) p (ground (arith, v)) l

noticed_resume :
    (id before : ℤ) (o : Option ResumeMark)
    → less_int (pos 0) id ≡ true
    → valid_resume before o ≡ true
    → valid_resume id o ≡ true
unfolding valid_resume
noticed_resume id before none positive v = refl
noticed_resume id before (some mark) positive v = ground (arith, v, positive)

noticed :
    (id : ℤ) (p : PauseEpisode)
    → less_int (pos 0) id ≡ true
    → valid_pause p ≡ true
    → valid_pause (record p { notice_id = id }) ≡ true
unfolding valid_pause
noticed id p positive v = ground (
  arith,
  v,
  positive-not_negative id positive,
  noticed_resume id p.notice_id p.resume positive (ground (arith, v)),
)

taken :
    (index : ℕ) (now : Time) (p : PauseEpisode)
    → 0 < now
    → (less_int (pos 0) p.notice_id && not (is_some p.resume)) ≡ true
    → valid_pause p ≡ true
    → (valid_pause (record p { resume = some (new_mark index now) }) ≡ true)
      × (is_applied (record p { resume = some (new_mark index now) }) ≡ is_applied p)
unfolding valid_pause valid_resume
taken index now p t open_now v = elim (Option-cases p.resume) [
  | inr (mark, set) ↦ absurd (closed (rw set at open_now))
  | inl unset ↦ (ground (arith, t, open_now, v), rw unset refl)
]
  where
    closed : (less_int (pos 0) p.notice_id && false) ≡ true → ⊥
    closed e = ground (arith, e)

-- A change of the latest pause, where it is as a test says.
change-IsSound :
    (test : PauseEpisode → Bool) (change : PauseEpisode → PauseEpisode) (r : WorkLimit)
    → ((p : PauseEpisode)
        → test p ≡ true
        → valid_pause p ≡ true
        → (valid_pause (change p) ≡ true) × (is_applied (change p) ≡ is_applied p))
    → IsSound r
    → (is_held r && latest_is test r.pauses) ≡ true
    → IsSound (record r { pauses = on_latest change r.pauses })
unfolding is_held
change-IsSound test change r h s due =
    with_pauses-IsSound r (on_latest change r.pauses)
      (on_latest-valid change r.pauses
        (λ p l v. (h p (latest_is-last test r.pauses p passes l) v).0) (pauses_valid r s))
      (on_latest-held change r.pauses (λ p l.
        (h p (latest_is-last test r.pauses p passes l)
          (last_valid r.pauses p (pauses_valid r s) l)).1))
      s
  where
    passes : latest_is test r.pauses ≡ true
    passes = ground (arith, due)

pub record_notice-IsSound :
    (id : ℤ) (r : WorkLimit) → less_int (pos 0) id ≡ true → IsSound r → IsSound (record_notice id r)
unfolding record_notice
record_notice-IsSound id r positive s =
    elim (Bool-cases (is_held r && latest_is (λ p. same_int p.notice_id (pos 0)) r.pauses)) [
      | inr other ↦ rw other s
      | inl due ↦ rw due (
          change-IsSound (λ p. same_int p.notice_id (pos 0)) (λ p. record p { notice_id = id }) r
            (λ p free v. (noticed id p positive v, refl)) s due)
    ]

pub take_resume-IsSound :
    (index : ℕ) (now : Time) (r : WorkLimit)
    → 0 < now
    → IsSound r
    → IsSound (take_resume index now r)
unfolding take_resume note_resume
take_resume-IsSound index now r t s = elim (Bool-cases (is_held r && latest_is is_open r.pauses)) [
  | inr other ↦ rw other s
  | inl due ↦ rw due (
      change-IsSound is_open (λ p. record p { resume = some (new_mark index now) }) r
        (λ p open_now v. taken index now p t open_now v) s due)
]
  where
    is_open : PauseEpisode → Bool
    is_open p = less_int (pos 0) p.notice_id && not (is_some p.resume)

applied-valid : (p : PauseEpisode) → valid_pause p ≡ true → valid_pause (apply_mark p) ≡ true
unfolding valid_pause valid_resume
applied-valid p v = elim (Option-cases p.resume) [
  | inl none_yet ↦ rw none_yet (rw none_yet at v)
  | inr (mark, set) ↦ rw set (rw set at v)
]

pub finish_pause-IsSound : (r : WorkLimit) → IsSound r → IsSound (finish_pause r)
unfolding finish_pause apply_pause_resume is_valid is_below is_held valid_option valid_clock
    valid_exits is_stamped reset_clock reset_exits
finish_pause-IsSound r s =
    ground (
      arith,
      s,
      on_latest-valid apply_mark r.pauses (λ p l v. applied-valid p v) (ground (arith, s)),
    )
