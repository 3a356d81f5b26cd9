-- ===== src/Engine/Watch/Held.antt =====
-- rewrite/cmd/engine/stop.go, runWatchedRequest, and rewrite/cmd/engine/stop_report.go: what a watcher may do from a stop on.
use lass_das.Base.{
  Bool, true, false, not, ◌&&◌, List, [], ◌∷◌, ◌++◌, ◌≡◌, inl, inr, refl, ◌∙◌, ◌||◌, ℤ, ℕ, zero,
  suc, arith, Bool-cases, all,
}
use lass_das.Engine.Turnstile.{entered, took, refused, left, released}
use lass_das.Engine.Watch.{
  Watcher, Act, slot, child_stopped, child_ended, launched, saved_stop, reported, recorded_question,
  Next, goes_on, returns, Turn, StopReport, refused_tries, run_report, report_stopped, stop_child,
  deferred, follow,
}
use lass_das.Engine.Watch.Launches.{launches_child}

-- What may be done from a stop on: nothing of the request's own is launched and no question is recorded;
-- only behind the save of the stop a slot is taken, and the role that reports runs, once.
unfoldable pub only_reports : Bool → Bool → List Act → Bool
only_reports saved done [] = true
only_reports saved done (launched ∷ acts) = false
only_reports saved done (recorded_question ∷ acts) = false
only_reports saved done (saved_stop ∷ acts) = only_reports true done acts
only_reports saved done (slot (took id) ∷ acts) = saved && only_reports saved done acts
only_reports saved done (reported ∷ acts) = saved && (not done && only_reports saved true acts)
only_reports saved done (_ ∷ acts) = only_reports saved done acts

-- An act that neither launches, takes, saves nor records.
unfoldable pub is_quiet : Act → Bool
is_quiet child_stopped = true
is_quiet child_ended = true
is_quiet (slot released) = true
is_quiet (slot (left id)) = true
is_quiet (slot (refused id)) = true
is_quiet _ = false

unfoldable pub quiet_acts : List Act → Bool
unfolding is_quiet
quiet_acts acts = all is_quiet acts

quiet-append :
    (xs ys : List Act) → quiet_acts xs ≡ true → quiet_acts ys ≡ true → quiet_acts (xs ++ ys) ≡ true
unfolding quiet_acts
quiet-append [] ys x y = y
quiet-append (a ∷ xs) ys x y = ground (arith, x, quiet-append xs ys (ground (arith, x)) y)

pub only_reports-quiet :
    (saved done : Bool) (xs ys : List Act)
    → quiet_acts xs ≡ true
    → only_reports saved done (xs ++ ys) ≡ only_reports saved done ys
unfolding quiet_acts is_quiet only_reports
only_reports-quiet saved done [] ys q = refl
only_reports-quiet saved done (launched ∷ xs) ys q = cc
only_reports-quiet saved done (recorded_question ∷ xs) ys q = cc
only_reports-quiet saved done (saved_stop ∷ xs) ys q = cc
only_reports-quiet saved done (reported ∷ xs) ys q = cc
only_reports-quiet saved done (slot (took id) ∷ xs) ys q = cc
only_reports-quiet saved done (slot (entered id) ∷ xs) ys q = cc
only_reports-quiet saved done (slot (refused id) ∷ xs) ys q = only_reports-quiet saved done xs ys q
only_reports-quiet saved done (slot (left id) ∷ xs) ys q = only_reports-quiet saved done xs ys q
only_reports-quiet saved done (slot released ∷ xs) ys q = only_reports-quiet saved done xs ys q
only_reports-quiet saved done (child_stopped ∷ xs) ys q = only_reports-quiet saved done xs ys q
only_reports-quiet saved done (child_ended ∷ xs) ys q = only_reports-quiet saved done xs ys q

pub quiet-only_reports :
    (saved done : Bool) (xs : List Act) → quiet_acts xs ≡ true → only_reports saved done xs ≡ true
unfolding quiet_acts is_quiet only_reports
quiet-only_reports saved done [] q = refl
quiet-only_reports saved done (launched ∷ xs) q = cc
quiet-only_reports saved done (recorded_question ∷ xs) q = cc
quiet-only_reports saved done (saved_stop ∷ xs) q = cc
quiet-only_reports saved done (reported ∷ xs) q = cc
quiet-only_reports saved done (slot (took id) ∷ xs) q = cc
quiet-only_reports saved done (slot (entered id) ∷ xs) q = cc
quiet-only_reports saved done (slot (refused id) ∷ xs) q = quiet-only_reports saved done xs q
quiet-only_reports saved done (slot (left id) ∷ xs) q = quiet-only_reports saved done xs q
quiet-only_reports saved done (slot released ∷ xs) q = quiet-only_reports saved done xs q
quiet-only_reports saved done (child_stopped ∷ xs) q = quiet-only_reports saved done xs q
quiet-only_reports saved done (child_ended ∷ xs) q = quiet-only_reports saved done xs q

pub only_reports-launches :
    (saved done : Bool) (acts : List Act)
    → only_reports saved done acts ≡ true
    → launches_child acts ≡ false
unfolding only_reports launches_child
only_reports-launches saved done [] o = refl
only_reports-launches saved done (launched ∷ acts) o = cc
only_reports-launches saved done (recorded_question ∷ acts) o = cc
only_reports-launches saved done (saved_stop ∷ acts) o = only_reports-launches true done acts o
only_reports-launches saved done (reported ∷ acts) o =
    only_reports-launches saved true acts (ground (arith, o))
only_reports-launches saved done (slot (took id) ∷ acts) o =
    only_reports-launches saved done acts (ground (arith, o))
only_reports-launches saved done (slot (entered id) ∷ acts) o =
    only_reports-launches saved done acts o
only_reports-launches saved done (slot (refused id) ∷ acts) o =
    only_reports-launches saved done acts o
only_reports-launches saved done (slot (left id) ∷ acts) o = only_reports-launches saved done acts o
only_reports-launches saved done (slot released ∷ acts) o = only_reports-launches saved done acts o
only_reports-launches saved done (child_stopped ∷ acts) o = only_reports-launches saved done acts o
only_reports-launches saved done (child_ended ∷ acts) o = only_reports-launches saved done acts o

-- A step from a stop on: quiet where the watcher goes on, and where it returns at most a report.
abbrev pub IsHeld : List Act → Next → Type 0
IsHeld acts returns = only_reports false false acts ≡ true
IsHeld acts (goes_on w) = (quiet_acts acts ≡ true) × (w.stopped ≡ true) × (w.running ≡ false)

IsHeld-append :
    (xs ys : List Act) (next : Next)
    → quiet_acts xs ≡ true
    → IsHeld ys next
    → IsHeld (xs ++ ys) next
IsHeld-append xs ys returns q h = only_reports-quiet false false xs ys q ∙ h
IsHeld-append xs ys (goes_on w) q h = (quiet-append xs ys q h.0, h.1, h.2)

pub follow-IsHeld :
    (acts : List Act) (next : Next) (rest : Watcher → Turn)
    → IsHeld acts next
    → ((w : Watcher)
        → (w.stopped ≡ true) × (w.running ≡ false)
        → IsHeld (rest w).acts (rest w).next)
    → IsHeld (follow acts next rest).acts (follow acts next rest).next
unfolding follow
follow-IsHeld acts returns rest s h = s
follow-IsHeld acts (goes_on w) rest s h =
    IsHeld-append acts (rest w).acts (rest w).next s.0 (h w (s.1, s.2))

pub deferred-quiet : (id : ℤ) (w : Watcher) → quiet_acts (deferred id w) ≡ true
unfolding deferred stop_child quiet_acts is_quiet
deferred-quiet id w = ground arith

refused_tries-quiet : (id : ℤ) (n : ℕ) → quiet_acts (refused_tries id n) ≡ true
unfolding refused_tries quiet_acts is_quiet
refused_tries-quiet id zero = refl
refused_tries-quiet id (suc n) = refused_tries-quiet id n

-- The report is allowed behind the save, whatever quiet follows it.
run_report-only :
    (id : ℤ) (p : StopReport) (ys : List Act)
    → quiet_acts ys ≡ true
    → only_reports true false (run_report id p ++ ys) ≡ true
unfolding run_report only_reports
run_report-only id p ys q =
    ground (arith, quiet-only_reports true false ys q, quiet-only_reports true true ys q)

tries-only :
    (id : ℤ) (n : ℕ) (xs ys : List Act)
    → only_reports true false ((refused_tries id n ++ xs) ++ ys)
      ≡ only_reports true false (xs ++ ys)
unfolding refused_tries only_reports
tries-only id zero xs ys = refl
tries-only id (suc n) xs ys = tries-only id n xs ys

pub report_stopped-only :
    (id : ℤ) (p : StopReport) (ys : List Act)
    → quiet_acts ys ≡ true
    → only_reports true false (report_stopped id p ++ ys) ≡ true
unfolding report_stopped
report_stopped-only id p ys q =
    elim (Bool-cases (not p.is_configured || (not p.may_report || p.is_done))) [
      | inl no_report ↦ rw no_report (quiet-only_reports true false ys q)
      | inr due ↦ rw due (tries-only id p.refusals (run_report id p) ys ∙ run_report-only id p ys q)
    ]
