-- ===== src/Chain/Endings/Kinds.antt =====
-- stages.go, LastEnding, and chain.go, FailedInARow: which launches are counted.
use lass_das.Base.{
  ℕ, ◌-◌, ◌≤◌, ◌≡◌, refl, sym, subst, ◌∙◌, Bool, true, false, not, Option, none, some, List, [],
  ◌∷◌, ◌++◌, if◌then◌else◌, All, length, arith, inl, inr, Bool-cases, some_inj, ==_refl,
  none-ne-some, ◌+◌,
}
use lass_das.Chain.Types.{Result, State}
use lass_das.Chain.Runs.{StageRun, stage_runs}
use lass_das.Chain.Endings.{
  Ending, no_kinds, ending_for, ending_of, records_between, join_notes, ending_at, last_ending,
  passing_over, failed_in_a_row, with_pending_note, since_latest_reply,
}
use lass_das.Chain.Endings.Tallied.{
  ended_forced, ended_stopped, ended_timed_out, ended_no_model, ended_error, count_ended, IsAttempt,
  EndsRow, Tallied, read_records-start, count_attempts-Tallied,
}

-- The launches that an ending counts, and the count beside it: those of one role at the end of the
-- launches that did not end cleanly, each by how its records say that it ended.
pub record Counted (history : List Result) (launches : List StageRun) (e : Ending) (count : ℕ)
    : Type 0 where
  pub attempts : List StageRun
  pub earlier : List StageRun
  pub parts : launches ≡ attempts ++ earlier
  pub alike : All (IsAttempt e.role) attempts
  pub ends : EndsRow e.role earlier
  pub some_attempt : 1 ≤ length attempts
  pub attempt : e.attempt ≡ length attempts
  pub forced : e.kinds.forced ≡ count_ended ended_forced history attempts
  pub stopped : e.kinds.stopped ≡ count_ended ended_stopped history attempts
  pub timed_out : e.kinds.timed_out ≡ count_ended ended_timed_out history attempts
  pub no_model : e.kinds.no_model ≡ count_ended ended_no_model history attempts
  pub errors : e.kinds.errors ≡ count_ended ended_error history attempts
  pub counted : count ≡ count_ended (λ records. not (ended_stopped records)) history attempts

count_ended-not :
    (p : List Result → Bool) (history : List Result) (runs : List StageRun)
    → length runs
      ≡ count_ended p history runs + count_ended (λ records. not (p records)) history runs
unfolding count_ended
count_ended-not p history [] = refl
count_ended-not p history (run ∷ runs) = ground (arith, count_ended-not p history runs)

not_empty :
    (last : StageRun) (runs attempts earlier : List StageRun)
    → last.satisfied ≡ false
    → last ∷ runs ≡ attempts ++ earlier
    → EndsRow last.role earlier
    → 1 ≤ length attempts
not_empty last runs [] [] failed parts ends = cc
not_empty last runs [] (run ∷ earlier) failed parts ends = absurd (ended (rw (← same) at ends))
  where
    same : last ≡ run
    same = cc

    ended : EndsRow last.role (last ∷ earlier) → ⊥
    ended (inl other) = cc (==_refl last.role)
    ended (inr clean) = cc
not_empty last runs (run ∷ attempts) earlier failed parts ends = omega arith

Tallied-Counted :
    (history : List Result) (last : StageRun) (runs : List StageRun) (start e : Ending)
    → last.satisfied ≡ false
    → start.role ≡ last.role
    → start.attempt ≡ 0
    → start.kinds ≡ no_kinds
    → Tallied history last.role start (last ∷ runs) e
    → Counted history (last ∷ runs) e (e.attempt - e.kinds.stopped)
Tallied-Counted history last runs start e failed r a k t = record {
  attempts = t.attempts;
  earlier = t.earlier;
  parts = t.parts;
  alike = subst (λ role. All (IsAttempt role) t.attempts) (sym same) t.alike;
  ends = subst (λ role. EndsRow role t.earlier) (sym same) t.ends;
  some_attempt = not_empty last runs t.attempts t.earlier failed t.parts t.ends;
  attempt = omega (arith, t.attempt, a);
  forced = omega (arith, rw k at t.adds.forced);
  stopped = omega (arith, rw k at t.adds.stopped);
  timed_out = omega (arith, rw k at t.adds.timed_out);
  no_model = omega (arith, rw k at t.adds.no_model);
  errors = omega (arith, rw k at t.adds.errors);
  counted = omega (
    arith,
    t.attempt,
    a,
    rw k at t.adds.stopped,
    count_ended-not ended_stopped history t.attempts,
  );
}
  where
    same : e.role ≡ last.role
    same = t.role_kept ∙ r

otherwise : (b : Bool) (x e : Ending) → b ≡ false → (if b then none else some x) ≡ some e → x ≡ e
otherwise true x e f h = cc
otherwise false x e f h = some_inj h

ending_at-Counted :
    (history : List Result) (launches : List StageRun) (e : Ending)
    → ending_at history launches ≡ some e
    → Counted history launches e (e.attempt - e.kinds.stopped)
unfolding ending_at
ending_at-Counted history [] e h = absurd (none-ne-some h)
ending_at-Counted history (last ∷ earlier) e h = elim (Bool-cases last.satisfied) [
  | inl clean ↦ absurd (none-ne-some (rw clean at h))
  | inr failed ↦
      let records = records_between last.from last.to history in
      let start = ending_of last.role records in
      let (a, k, r) = read_records-start (ending_for last.role) records in
      subst (λ e'. Counted history (last ∷ earlier) e' (e'.attempt - e'.kinds.stopped))
        (otherwise last.satisfied _ e failed h)
        (Tallied-Counted history last earlier start _ failed r a k
          (count_attempts-Tallied history last.role start (last ∷ earlier)))
]

passing_over-Counted :
    (history : List Result) (launches : List StageRun) (o : Option Ending) (e : Ending)
    → ((e' : Ending) → o ≡ some e' → Counted history launches e' (e'.attempt - e'.kinds.stopped))
    → (passing_over o).0 ≡ some e
    → Counted history launches e (passing_over o).1
unfolding passing_over
passing_over-Counted history launches none e b h = absurd (none-ne-some h)
passing_over-Counted history launches (some e') e b h = rw (← some_inj h) (b e' refl)

-- The state since the latest reply, with the note of a pending launch, and its launches, the latest first.
abbrev pub counted_state : State → State
counted_state s = since_latest_reply (with_pending_note s)

abbrev pub counted_launches : State → List StageRun
counted_launches s = join_notes (counted_state s).history [] (stage_runs (counted_state s))

-- Where FailedInARow finds an ending, it counts the latest launches of one role since the requester's
-- latest reply, a pending launch with the note that the next start leaves: at least one, none of which
-- ended cleanly, back to a launch of another role or one that ended cleanly. The attempts are their
-- number; each kind is the number of those whose records say so, by the first of killed, stopped, out
-- of time and without a model that holds, and otherwise an error; and the count that FailedInARow
-- returns is the number of those that the runtime did not stop.
pub failed_in_a_row-Counted :
    (s : State) (e : Ending)
    → (failed_in_a_row s).0 ≡ some e
    → Counted (counted_state s).history (counted_launches s) e (failed_in_a_row s).1
unfolding failed_in_a_row last_ending
failed_in_a_row-Counted s e h = passing_over-Counted _ _ _ e (ending_at-Counted _ _) h
