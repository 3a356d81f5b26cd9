-- ===== src/Engine/Pause/Words.antt =====
-- rewrite/cmd/engine/pause.go, applyPauseResume: the words that joined the history, found again there.
use lass_das.Base.{
  suc, ==_refl, Bool, true, false, some, List, [], ◌∷◌, ◌++◌, ◌≡◌, refl, leb, length, length-append,
  get_elem?, same_int_refl, arith, last?, inl, inr, Option-cases,
}
use lass_das.Chain.Types.{Result}
use lass_das.Engine.WorkLimit.{PauseEpisode, ResumeMark, WorkLimit, is_held}
use lass_das.Engine.WorkLimit.Work.{on_latest, note_resume, apply_mark, apply_pause_resume}
use lass_das.Engine.Pause.{same_bool, same_result, is_joined}

same_bool_refl : (b : Bool) → same_bool b b ≡ true
unfolding same_bool
same_bool_refl true = refl
same_bool_refl false = refl

same_result_refl : (r : Result) → same_result r r ≡ true
unfolding same_result
same_result_refl r = simp (==_refl, same_bool_refl, same_int_refl)

get_elem?-snoc :
    (history : List Result) (r : Result) → get_elem? (history ++ r ∷ []) (length history) ≡ some r
get_elem?-snoc [] r = refl
get_elem?-snoc (x ∷ history) r = get_elem?-snoc history r

length-snoc :
    (history : List Result) (r : Result) → length (history ++ r ∷ []) ≡ suc (length history)
length-snoc history r = omega (arith, length-append history (r ∷ []))

pub is_joined-snoc :
    (history : List Result) (r : Result) → is_joined (history ++ r ∷ []) (length history) r ≡ true
unfolding is_joined
is_joined-snoc history r =
    rw (length-snoc history r, get_elem?-snoc history r, same_result_refl r) (ground arith)

pub not_shorter :
    (history : List Result) (r : Result) → leb (length (history ++ r ∷ [])) (length history) ≡ false
not_shorter history r = rw (length-snoc history r) (ground arith)

last-on_latest :
    (change : PauseEpisode → PauseEpisode) (pauses : List PauseEpisode) (p : PauseEpisode)
    → last? pauses ≡ some p
    → last? (on_latest change pauses) ≡ some (change p)
unfolding on_latest
last-on_latest change [] p e = cc
last-on_latest change (q ∷ []) p e = cc
last-on_latest change (q ∷ q' ∷ []) p e = cc
last-on_latest change (q ∷ q' ∷ q'' ∷ pauses) p e = last-on_latest change (q' ∷ q'' ∷ pauses) p e

held_latest : (r : WorkLimit) → is_held r ≡ true → (p : PauseEpisode) × (last? r.pauses ≡ some p)
unfolding is_held
held_latest r h = elim (Option-cases (last? r.pauses)) [
  | inl e ↦ cc (rw (is_held, e) at h)
  | inr (p, e) ↦ (p, e)
]

-- An instruction that is noted and not applied leaves the pause as it holds.
pub note_resume-held :
    (mark : ResumeMark) (r : WorkLimit)
    → mark.applied ≡ false
    → is_held r ≡ true
    → is_held (note_resume mark r) ≡ true
unfolding is_held note_resume
note_resume-held mark r a h =
    let (p, e) = held_latest r h in
    rw (is_held, last-on_latest (λ pause. record pause { resume = some mark }) r.pauses p e, a) refl

-- A pause that was released does not hold the request.
pub apply_pause_resume-held :
    (mark : ResumeMark) (r : WorkLimit)
    → is_held r ≡ true
    → is_held (apply_pause_resume (note_resume mark r)) ≡ false
unfolding is_held apply_pause_resume note_resume
apply_pause_resume-held mark r h =
    let (p, e) = held_latest r h in
    rw
      (
        is_held,
        last-on_latest apply_mark
            (on_latest (λ pause. record pause { resume = some mark }) r.pauses)
            (record p { resume = some mark })
            (last-on_latest (λ pause. record pause { resume = some mark }) r.pauses p e),
      )
      refl
