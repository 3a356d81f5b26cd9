-- ===== src/Chain/Offers/Limits.antt =====
-- workflow.go: launchLimitNotes and launches.
use lass_das.Base.{
  ℕ, suc, ◌≤◌, String, ◌==◌, ==_refl, contains, contains-append, Bool, true, false, not, ◌&&◌, ◌||◌,
  none, some, ◌⊎◌, List, [], ◌∷◌, ◌++◌, arith, if◌then◌else◌, inl, inr, Bool-cases, ◌≡◌, refl, ap,
  ◌∙◌, last?, append-nil,
}
use lass_das.Chain.Types.{Result, Workflow, State, Time}
use lass_das.Chain.Runs.{
  stages_of, confirmed_by, confirmation_decision, awaiting_reply_about_change, confirmation_reworks,
  entrance_reworks, first_name,
}
use lass_das.Chain.Runs.Notes.{stage_runs-router_note}
use lass_das.Chain.Offers.{
  at_launch_limit, offered, entrance_limit, confirmation_limit, entrance_note, confirmation_note,
  is_noted, runtime_note, rework_notes, Launches, no_launches, launch_step, launch_loop, launches,
}

is_noted-last :
    (role text : String) (h : List Result) (n : Result)
    → n.speaker ≡ "runtime"
    → n.role ≡ role
    → contains n.output text ≡ true
    → is_noted role text (h ++ n ∷ []) ≡ true
unfolding is_noted
is_noted-last role text [] n s r c = rw (s, r, c, ==_refl "runtime", ==_refl role)
is_noted-last role text (x ∷ h) n s r c = rw (is_noted-last role text h n s r c)

abbrev with_note : State → Result → State
with_note s n = record s { history = s.history ++ n ∷ [] }

confirmation_decision-note :
    (s : State) (n : Result)
    → n.role ≡ "router"
    → confirmation_decision (with_note s n) ≡ confirmation_decision s
unfolding confirmation_decision
confirmation_decision-note s n e =
    ap (λ runs. elim (last? runs) [ none ↦ false | some run ↦ confirmed_by (stages_of s) run ])
      (stage_runs-router_note s n e)

entrance_note-contains :
    (role : String) (k : ℕ) → contains (entrance_note role k) entrance_limit ≡ true
entrance_note-contains role k = contains-append _ entrance_limit _

confirmation_note-contains :
    (role : String) (k : ℕ) (b : Bool)
    → contains (confirmation_note role k b) confirmation_limit ≡ true
confirmation_note-contains role k b = contains-append _ confirmation_limit _

abbrev limit_of : State → String
limit_of s = if confirmation_decision s then confirmation_limit else entrance_limit

-- A note that says that the limit at hand is reached.
record IsLimitNote (s : State) (n : Result) : Type 0 where
  role : n.role ≡ "router"
  speaker : n.speaker ≡ "runtime"
  says : contains n.output (limit_of s) ≡ true

rework_notes-cases :
    (s : State) (w : Workflow) (now : Time)
    → ((later : Time) → rework_notes s w later ≡ [])
      ⊎ ((n : Result) × (rework_notes s w now ≡ n ∷ []) × IsLimitNote s n)
unfolding rework_notes runtime_note
rework_notes-cases s w now =
    elim (Bool-cases
      (not (at_launch_limit s (first_name w.stages)) || offered s (first_name w.stages))) [
        | inl e ↦ inl (λ later. rw e)
        | inr e ↦ elim (Bool-cases (is_noted "router" (limit_of s) s.history)) [
          | inl f ↦ inl (λ later. rw (e, f))
          | inr f ↦ elim (Bool-cases (confirmation_decision s)) [
            | inl c ↦ inr (
              runtime_note "router"
                  (confirmation_note (first_name w.stages) (confirmation_reworks s)
                    (awaiting_reply_about_change s))
                  now,
              rw (e, f, c),
              record {
                role = refl;
                speaker = refl;
                says = rw c (confirmation_note-contains _ _ _);
              },
            )
            | inr c ↦ inr (
              runtime_note "router" (entrance_note (first_name w.stages) (entrance_reworks s)) now,
              rw (e, f, c),
              record { role = refl; speaker = refl; says = rw c (entrance_note-contains _ _) },
            )
          ]
        ]
      ]

rework_notes-noted :
    (s : State) (w : Workflow) (later : Time)
    → is_noted "router" (limit_of s) s.history ≡ true
    → rework_notes s w later ≡ []
unfolding rework_notes
rework_notes-noted s w later e =
    elim (Bool-cases
      (not (at_launch_limit s (first_name w.stages)) || offered s (first_name w.stages))) [
        | inl f ↦ rw f
        | inr f ↦ rw (f, e)
      ]

-- The note of a limit of an ordered run is written once: with the notes in the history
-- launchLimitNotes has nothing left to note.
pub rework_notes-once :
    (s : State) (w : Workflow) (now later : Time)
    → rework_notes (record s { history = s.history ++ rework_notes s w now }) w later ≡ []
rework_notes-once s w now later = elim (rework_notes-cases s w now) [
  | inl quiet ↦
      ap (λ h. rework_notes (record s { history = h }) w later)
        (ap (λ x. s.history ++ x) (quiet now) ∙ append-nil s.history)
      ∙ quiet later
  | inr (n, e, is_note) ↦
      ap (λ x. rework_notes (record s { history = s.history ++ x }) w later) e
      ∙ rework_notes-noted (with_note s n) w later (
          is_noted-last "router" _ s.history n is_note.speaker is_note.role
            (rw (confirmation_decision-note s n is_note.role) is_note.says))
]

launch_loop-last :
    (role : String) (l : Launches) (h : List Result) (r : Result)
    → launch_loop role l (h ++ r ∷ []) ≡ launch_step role (launch_loop role l h) r
unfolding launch_loop
launch_loop-last role l [] r = refl
launch_loop-last role l (x ∷ h) r = launch_loop-last role (launch_step role l x) h r

-- The process records of the role behind the requester's latest comment.
abbrev pub process_records : String → ℕ → List Result → ℕ
process_records role n [] = n
process_records role n (r ∷ rest) =
    process_records role
      (if r.speaker == "requester"
        then 0
        else if not (r.speaker == "runtime") && (r.role == role)
        then suc n
        else n)
      rest

launch_loop-le :
    (role : String) (l : Launches) (n : ℕ) (h : List Result)
    → l.count ≤ n
    → (launch_loop role l h).count ≤ process_records role n h
unfolding launch_loop launch_step
launch_loop-le role l n [] p = p
launch_loop-le role l n (r ∷ h) p = launch_loop-le role (launch_step role l r) _ h (ground arith)

-- A role has at most as many launches as records of its own processes since the requester's latest
-- comment, and none right behind a comment.
pub launches-le :
    (s : State) (role : String)
    → (launches s role ≤ process_records role 0 s.history)
      × ((reply : Result)
          → reply.speaker ≡ "requester"
          → launches (record s { history = s.history ++ reply ∷ [] }) role ≡ 0)
unfolding launches launch_step
launches-le s role = (
  launch_loop-le role no_launches 0 s.history (omega arith),
  λ reply q.
      ap (λ (l : Launches). l.count) (launch_loop-last role no_launches s.history reply)
      ∙ rw (q, ==_refl "requester"),
)
