-- ===== src/Chain/Endings/Tallied.antt =====
-- stages.go, EndingKinds, endingOf and the loop of LastEnding: how the launches of a row ended.
use text.Mathlib.Text.{starts_with}
use lass_das.Base.{
  ℕ, suc, ◌+◌, ◌≡◌, ◌⊎◌, refl, ap, String, ◌==◌, ==→≡, Bool, true, false, not, ◌&&◌, ◌||◌, List, [],
  ◌∷◌, ◌++◌, if◌then◌else◌, any, All, length, arith, inl, inr, Bool-cases,
}
use lass_das.Chain.Types.{Result}
use lass_das.Chain.Runs.{StageRun}
use lass_das.Chain.Endings.{
  EndingKinds, Ending, ending_for, deadline_exceeded, selection_failure, read_record, read_records,
  ending_of, add, records_between, count_attempts,
}

-- A process, not the runtime itself, left an error that begins so.
abbrev failed_with : String → Result → Bool
failed_with text r = not (r.speaker == "runtime") && starts_with r.error text

-- How a launch ended, by its records: the first that holds of killed, stopped, out of time and without a
-- model; and otherwise an error.
abbrev pub ended_forced : List Result → Bool
ended_forced records = any (λ r. r.forced) records

abbrev pub ended_stopped : List Result → Bool
ended_stopped records = not (ended_forced records) && any (λ r. r.interrupted) records

abbrev pub ended_timed_out : List Result → Bool
ended_timed_out records =
    not (ended_forced records || any (λ r. r.interrupted) records)
    && any (failed_with deadline_exceeded) records

abbrev pub ended_no_model : List Result → Bool
ended_no_model records =
    not (
      ended_forced records
      || (any (λ r. r.interrupted) records || any (failed_with deadline_exceeded) records))
    && any (failed_with selection_failure) records

abbrev pub ended_error : List Result → Bool
ended_error records = not (
    ended_forced records
    || (any (λ r. r.interrupted) records
        || (any (failed_with deadline_exceeded) records
            || any (failed_with selection_failure) records)))

-- How many of the launches ended so.
unfoldable pub count_ended : (List Result → Bool) → List Result → List StageRun → ℕ
count_ended p history [] = 0
count_ended p history (run ∷ runs) =
    (if p (records_between run.from run.to history) then 1 else 0) + count_ended p history runs

read_records-any :
    (e : Ending) (records : List Result)
    → ((read_records e records).forced ≡ (e.forced || any (λ r. r.forced) records))
      × ((read_records e records).interrupted ≡ (e.interrupted || any (λ r. r.interrupted) records))
      × ((read_records e records).timed_out
          ≡ (e.timed_out || any (failed_with deadline_exceeded) records))
      × ((read_records e records).no_model
          ≡ (e.no_model || any (failed_with selection_failure) records))
unfolding read_records read_record
read_records-any e [] = ground arith
read_records-any e (r ∷ records) = ground (arith, read_records-any (read_record e r) records)

pub read_records-start :
    (e : Ending) (records : List Result)
    → ((read_records e records).attempt ≡ e.attempt)
      × ((read_records e records).kinds ≡ e.kinds)
      × ((read_records e records).role ≡ e.role)
unfolding read_records read_record
read_records-start e [] = (refl, refl, refl)
read_records-start e (r ∷ records) = read_records-start (read_record e r) records

-- The fields of two counts differ as the launches between them ended.
pub record Adds (k : EndingKinds) (n : (List Result → Bool) → ℕ) (k' : EndingKinds) : Type 0 where
  pub forced : k'.forced ≡ k.forced + n ended_forced
  pub stopped : k'.stopped ≡ k.stopped + n ended_stopped
  pub timed_out : k'.timed_out ≡ k.timed_out + n ended_timed_out
  pub no_model : k'.no_model ≡ k.no_model + n ended_no_model
  pub errors : k'.errors ≡ k.errors + n ended_error

abbrev once : List Result → (List Result → Bool) → ℕ
once records p = if p records then 1 else 0

add-Adds :
    (k : EndingKinds) (role : String) (records : List Result)
    → Adds k (once records) (add k (ending_of role records))
unfolding add ending_of
add-Adds k role records =
    let (f, i, t, m) = read_records-any (ending_for role) records in
    record {
      forced = ground (arith, f, i, t, m);
      stopped = ground (arith, f, i, t, m);
      timed_out = ground (arith, f, i, t, m);
      no_model = ground (arith, f, i, t, m);
      errors = ground (arith, f, i, t, m);
    }

Adds-trans :
    {k k' k'' : EndingKinds} {m n : (List Result → Bool) → ℕ}
    → Adds k m k'
    → Adds k' n k''
    → Adds k (λ p. m p + n p) k''
Adds-trans a b = record {
  forced = omega (arith, a.forced, b.forced);
  stopped = omega (arith, a.stopped, b.stopped);
  timed_out = omega (arith, a.timed_out, b.timed_out);
  no_model = omega (arith, a.no_model, b.no_model);
  errors = omega (arith, a.errors, b.errors);
}

-- The launch is one of the role that did not end cleanly.
abbrev pub IsAttempt : String → StageRun → Type 0
IsAttempt role run = (run.role ≡ role) × (run.satisfied ≡ false)

-- The launches end, or the next is of another role or ended cleanly.
abbrev pub EndsRow : String → List StageRun → Type 0
EndsRow role [] = Unit
EndsRow role (run ∷ runs) = ((run.role == role) ≡ false) ⊎ (run.satisfied ≡ true)

-- What count_attempts adds to an ending.
pub record Tallied (history : List Result) (role : String) (e : Ending) (runs : List StageRun)
    (e' : Ending) : Type 0 where
  pub attempts : List StageRun
  pub earlier : List StageRun
  pub parts : runs ≡ attempts ++ earlier
  pub alike : All (IsAttempt role) attempts
  pub ends : EndsRow role earlier
  pub attempt : e'.attempt ≡ e.attempt + length attempts
  pub adds : Adds e.kinds (λ p. count_ended p history attempts) e'.kinds
  pub role_kept : e'.role ≡ e.role

Tallied-none :
    (history : List Result) (role : String) (e : Ending) (runs : List StageRun)
    → EndsRow role runs
    → Tallied history role e runs e
unfolding count_ended
Tallied-none history role e runs ends = record {
  attempts = [];
  earlier = runs;
  parts = refl;
  alike = tt;
  ends = ends;
  attempt = omega arith;
  adds = record {
    forced = omega arith;
    stopped = omega arith;
    timed_out = omega arith;
    no_model = omega arith;
    errors = omega arith;
  };
  role_kept = refl;
}

Tallied-one :
    (history : List Result) (role : String) (e : Ending) (run : StageRun) (runs : List StageRun)
    (e' : Ending)
    → IsAttempt role run
    → Tallied history role
        (record e {
          attempt = suc e.attempt;
          kinds = add e.kinds (ending_of role (records_between run.from run.to history));
        })
        runs
        e'
    → Tallied history role e (run ∷ runs) e'
unfolding count_ended
Tallied-one history role e run runs e' is_attempt t = record {
  attempts = run ∷ t.attempts;
  earlier = t.earlier;
  parts = ap (λ rest. run ∷ rest) t.parts;
  alike = (is_attempt, t.alike);
  ends = t.ends;
  attempt = omega (arith, t.attempt);
  adds = Adds-trans (add-Adds e.kinds role (records_between run.from run.to history)) t.adds;
  role_kept = t.role_kept;
}

pub count_attempts-Tallied :
    (history : List Result) (role : String) (e : Ending) (runs : List StageRun)
    → Tallied history role e runs (count_attempts history role e runs)
unfolding count_attempts
count_attempts-Tallied history role e [] = Tallied-none history role e [] tt
count_attempts-Tallied history role e (run ∷ runs) = elim (Bool-cases (run.role == role)) [
  | inr other ↦ rw other (Tallied-none history role e (run ∷ runs) (inl other))
  | inl same ↦ elim (Bool-cases run.satisfied) [
    | inl clean ↦ simp (same, clean) (Tallied-none history role e (run ∷ runs) (inr clean))
    | inr failed ↦
        simp (same, failed)
          (Tallied-one history role e run runs _ (==→≡ run.role role same, failed)
            (count_attempts-Tallied history role
              (record e {
                attempt = suc e.attempt;
                kinds = add e.kinds (ending_of role (records_between run.from run.to history));
              })
              runs))
  ]
]
