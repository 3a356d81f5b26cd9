-- ===== src/Chain/Offers/Choices.antt =====
-- workflow.go: offered and routingChoices.
use lass_das.Base.{
  String, ◌==◌, ==→≡, ==_refl, Bool, true, false, ◌&&◌, some, List, [], ◌∷◌, arith, any, In, inl,
  inr, Bool-cases, Option-cases, ◌≡◌, ◌≢◌, refl, sym, contains_text, has_key, is_empty, some_inj,
  none-ne-some,
}
use lass_das.Chain.Types.{Stage, Workflow, State, environment_pause}
use lass_das.Chain.Runs.{stages_of, first_name}
use lass_das.Chain.Actions.{environment_pause_open, first_is_model}
use lass_das.Chain.Offers.{
  next_actions, permits, at_launch_limit, unavailable_question, is_unavailable, has_way, offered,
  offered_roles, add_done, add_pause_choice, routing_choices,
}

any-In :
    {A : Type 0} (p : A → Bool) (xs : List A) → any p xs ≡ true → (x : A) × In x xs × (p x ≡ true)
any-In p [] h = cc
any-In p (x ∷ xs) h = elim (Bool-cases (p x)) [
  | inl e ↦ (x, inl refl, e)
  | inr e ↦ let (y, i, q) = any-In p xs (rw e at h) in (y, inr i, q)
]

contains_text-In : (x : String) (xs : List String) → In x xs → contains_text x xs ≡ true
unfolding contains_text
contains_text-In x [] h = absurd h
contains_text-In x (y ∷ xs) (inl e) = rw (← e, ==_refl x)
contains_text-In x (y ∷ xs) (inr h) = ground (arith, contains_text-In x xs h)

permits-In : (s : State) (action : String) → In action (next_actions s) → permits s action ≡ true
unfolding permits
permits-In s action h = elim (Option-cases s.workflow) [
  | inl e ↦ rw (e, permits)
  | inr (w, e) ↦ rw (e, permits) (contains_text-In action (next_actions s) h)
]

-- The limits never leave a decision without an action: where some action is not the question role
-- kept out, some action is offered, whatever was launched.
pub offered_some :
    (s : State) (action : String)
    → In action (next_actions s)
    → is_unavailable s action ≡ false
    → (other : String) × In other (next_actions s) × (offered s other ≡ true)
unfolding offered has_way
offered_some s action here available = elim (Bool-cases (any (has_way s) (next_actions s))) [
  | inl way ↦
      let (other, there, h) = any-In (has_way s) (next_actions s) way in
      (other, there, ground (arith, h, permits-In s other there))
  | inr stuck ↦ (action, here, ground (arith, stuck, permits-In s action here))
]

offered_roles-offered :
    (s : State) (roles : List (String × String)) (role : String)
    → has_key role (offered_roles s roles) ≡ true
    → offered s role ≡ true
unfolding offered_roles has_key
offered_roles-offered s [] role h = cc
offered_roles-offered s ((name, purpose) ∷ roles) role h = elim (Bool-cases (offered s name)) [
  | inr out ↦ offered_roles-offered s roles role (rw out at h)
  | inl ok ↦ elim (Bool-cases (name == role)) [
    | inl same ↦ rw (← ==→≡ name role same) ok
    | inr other ↦ offered_roles-offered s roles role (rw (ok, other) at h)
  ]
]

-- The question role that is kept out is neither done nor the pause, and no first stage is named
-- like the pause.
pub record ReservedNames (s : State) : Type 0 where
  pub question_done : s.question_unavailable ≢ "done"
  pub question_pause : s.question_unavailable ≢ environment_pause
  pub first_pause : first_name (stages_of s) ≢ environment_pause

not_unavailable :
    (s : State) (action : String)
    → action ≢ ""
    → s.question_unavailable ≢ action
    → is_unavailable s action ≡ false
unfolding is_unavailable unavailable_question
not_unavailable s action named other =
    ground (arith, ==→≡ action s.question_unavailable, ==→≡ action "")

done-offered : (s : State) → ReservedNames s → permits s "done" ≡ true → offered s "done" ≡ true
unfolding offered
done-offered s r p =
    let q = not_unavailable s "done" (λ e. cc) r.question_done in rw (q, p, ==_refl "done")

first_is_model-not_empty :
    (stages : List Stage) → first_is_model stages ≡ true → is_empty stages ≡ false
unfolding first_is_model
first_is_model-not_empty [] h = cc
first_is_model-not_empty (stage ∷ stages) h = refl

pause_needs_model :
    (s : State) (w : Workflow)
    → s.workflow ≡ some w
    → environment_pause_open s ≡ true
    → first_is_model w.stages ≡ true
unfolding environment_pause_open
pause_needs_model s w e h = ground (arith, e, h)

pause-below :
    (s : State)
    → first_name (stages_of s) ≢ environment_pause
    → environment_pause_open s ≡ true
    → at_launch_limit s environment_pause ≡ false
unfolding at_launch_limit
pause-below s named open_now = elim (Option-cases s.workflow) [
  | inl e ↦ rw (e, at_launch_limit)
  | inr (w, e) ↦
      let some_stage = first_is_model-not_empty w.stages (pause_needs_model s w e open_now) in
      let other : (environment_pause == first_name w.stages) ≡ false =
        not_equal environment_pause (first_name w.stages) (λ q. named (rw e (sym q))) in
      rw (e, at_launch_limit) (rw (some_stage, other))
]
  where
    not_equal : (a b : String) → a ≢ b → (a == b) ≡ false
    not_equal a b h = elim (Bool-cases (a == b)) [ inl e ↦ absurd (h (==→≡ a b e)) | inr e ↦ e ]

pause-offered :
    (s : State)
    → ReservedNames s
    → environment_pause_open s ≡ true
    → permits s environment_pause ≡ true
    → offered s environment_pause ≡ true
unfolding offered ◌==◌
pause-offered s r o p =
    let q = not_unavailable s environment_pause (λ e. cc) r.question_pause in
    rw (q, p, pause-below s r.first_pause o)

add_done-offered :
    (s : State) (choices : List (String × String)) (action : String)
    → ReservedNames s
    → (has_key action choices ≡ true → offered s action ≡ true)
    → has_key action (add_done s choices) ≡ true
    → offered s action ≡ true
unfolding add_done has_key
add_done-offered s choices action r rest h = elim (Bool-cases (permits s "done")) [
  | inr out ↦ rest (rw out at h)
  | inl p ↦ elim (Bool-cases ("done" == action)) [
    | inl same ↦ rw (← ==→≡ "done" action same) (done-offered s r p)
    | inr other ↦ rest (rw (p, other) at h)
  ]
]

add_pause_choice-offered :
    (s : State) (choices : List (String × String)) (action : String)
    → ReservedNames s
    → (has_key action choices ≡ true → offered s action ≡ true)
    → has_key action (add_pause_choice s choices) ≡ true
    → offered s action ≡ true
unfolding add_pause_choice has_key
add_pause_choice-offered s choices action r rest h =
    elim (Bool-cases (environment_pause_open s && permits s environment_pause)) [
      | inr out ↦ rest (rw out at h)
      | inl p ↦ elim (Bool-cases (environment_pause == action)) [
        | inl same ↦
            rw (← ==→≡ environment_pause action same)
              (pause-offered s r (ground (arith, p)) (ground (arith, p)))
        | inr other ↦ rest (rw (p, other) at h)
      ]
    ]

-- Whatever the decision router may answer passes the loop's own test of the answer, where no
-- stage and no question role has a reserved name.
pub routing_choices-offered :
    (s : State) (roles choices : List (String × String)) (action : String)
    → ReservedNames s
    → routing_choices s roles ≡ some choices
    → has_key action choices ≡ true
    → offered s action ≡ true
unfolding routing_choices
routing_choices-offered s roles choices action r h k =
    let all = add_pause_choice s (add_done s (offered_roles s roles)) in
    elim (Bool-cases (is_empty all)) [
      | inl e ↦ absurd (none-ne-some (rw e at h))
      | inr e ↦
          add_pause_choice-offered s (add_done s (offered_roles s roles)) action r
            (add_done-offered s (offered_roles s roles) action r
              (offered_roles-offered s roles action))
            (rw (some_inj (rw e at h)) k)
    ]
