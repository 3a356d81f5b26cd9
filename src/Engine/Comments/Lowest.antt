-- ===== src/Engine/Comments/Lowest.antt =====
-- rewrite/cmd/engine/pause.go, resumeInstruction: which instruction is taken.
use lass_das.Base.{
  Bool, true, false, not, ◌&&◌, ◌||◌, Option, none, some, List, [], ◌∷◌, ◌≡◌, ◌⊎◌, inl, inr, refl,
  sym, ◌∙◌, if◌then◌else◌, any, ℤ, pos, same_int, less_int, is_zero, In, Bool-cases, arith,
  some_inj, less_irrefl, less_asym, not_less_trans, positive_above, zero_not_positive, none-ne-some,
}
use lass_das.Engine.Comments.{
  Comment, Found, unreadable, found, is_resume, lowest_resume, resume_instruction,
}

-- A record that is not on the issue ends the reading.
pub on_issue_of :
    {A : Type 0} (here : Bool) (rest : Found A) (r : A)
    → (if not here then unreadable else rest) ≡ found r
    → (here ≡ true) × (rest ≡ found r)
on_issue_of true rest r e = (refl, e)
on_issue_of false rest r e = cc

module _ (creator : ℤ) (operators : List ℤ) (after : ℤ) (excluded : List ℤ) where
  -- An instruction of the comments that may be taken.
  abbrev pub is_offered : Comment → Bool
  is_offered c = is_resume creator operators after c && not (any (same_int c.id) excluded)

  abbrev beats : Comment → Option Comment → Bool
  beats c best = elim best [ none ↦ true | some b ↦ is_zero b.id || less_int c.id b.id ]

  abbrev better : Comment → Option Comment → Option Comment
  better c best =
      if is_resume creator operators after c && (not (any (same_int c.id) excluded) && beats c best)
      then some c
      else best

  -- At most: no id of the comments is below that of the one that was taken.
  abbrev pub Above : Comment → Option Comment → Type 0
  Above d r = (c : Comment) × (r ≡ some c) × (less_int d.id c.id ≡ false)

  offered_positive :
      (c : Comment)
      → less_int after (pos 0) ≡ false
      → is_offered c ≡ true
      → less_int (pos 0) c.id ≡ true
  unfolding is_resume
  offered_positive c h o = positive_above after c.id h (ground (arith, o))

  abbrev IsBest : Option Comment → Type 0
  IsBest best = (b : Comment) → best ≡ some b → is_offered b ≡ true

  better-IsBest : (c : Comment) (best : Option Comment) → IsBest best → IsBest (better c best)
  better-IsBest c none h b e = ground (arith, h b, e)
  better-IsBest c (some a) h b e = ground (arith, h b, e)

  better-kept : (c b : Comment) → is_zero b.id ≡ false → Above b (better c (some b))
  better-kept c b z = elim (Bool-cases (is_offered c && less_int c.id b.id)) [
    | inl wins ↦ (c, ground (arith, wins), less_asym c.id b.id (ground (arith, wins)))
    | inr loses ↦ (b, ground (arith, loses, z), less_irrefl b.id)
  ]

  better-taken :
      (c : Comment) (best : Option Comment)
      → IsBest best
      → less_int after (pos 0) ≡ false
      → is_offered c ≡ true
      → Above c (better c best)
  better-taken c none h p o = (c, ground (arith, o), less_irrefl c.id)
  better-taken c (some b) h p o =
      let z = zero_not_positive b.id (offered_positive b p (h b refl)) in
      elim (Bool-cases (less_int c.id b.id)) [
        | inl below ↦ (c, ground (arith, o, below), less_irrefl c.id)
        | inr same ↦ (b, ground (arith, o, same, z), same)
      ]

  -- What the loop makes of the lowest instruction so far.
  record IsLowest (best : Option Comment) (rows : List (Option Comment)) (r : Option Comment)
      : Type 0 where
    kept : (b : Comment) → best ≡ some b → Above b r
    lowest : (d : Comment) → In (some d) rows → is_offered d ≡ true → Above d r
    taken : (c : Comment) → r ≡ some c → (best ≡ some c) ⊎ In (some c) rows
    offered : IsBest r

  Above-trans :
      (d : Comment) (best r : Option Comment)
      → Above d best
      → ((b : Comment) → best ≡ some b → Above b r)
      → Above d r
  Above-trans d best r (b, e, h) kept =
      let (c, e', h') = kept b e in (c, e', not_less_trans d.id b.id c.id h h')

  taken_step :
      (a c : Comment) (best : Option Comment) (rows : List (Option Comment))
      → (better a best ≡ some c) ⊎ In (some c) rows
      → (best ≡ some c) ⊎ In (some c) (some a ∷ rows)
  taken_step a c best rows (inr later) = inr (inr later)
  taken_step a c best rows (inl e) =
      elim (Bool-cases (
        is_resume creator operators after a
        && (not (any (same_int a.id) excluded) && beats a best))) [
          | inl wins ↦ inr (inl (sym (rw wins at e)))
          | inr loses ↦ inl (rw loses at e)
        ]

  lowest_resume-IsLowest :
      (best : Option Comment) (rows : List (Option Comment)) (r : Option Comment)
      → less_int after (pos 0) ≡ false
      → IsBest best
      → lowest_resume creator operators after excluded best rows ≡ found r
      → IsLowest best rows r
  unfolding lowest_resume
  lowest_resume-IsLowest best [] r p h e =
      let same : best ≡ r = cc in
      record {
        kept = λ b e'. (b, sym same ∙ e', less_irrefl b.id);
        lowest = λ d m o. absurd m;
        taken = λ c e'. inl (same ∙ e');
        offered = λ c e'. h c (same ∙ e');
      }
  lowest_resume-IsLowest best (none ∷ rows) r p h e = cc
  lowest_resume-IsLowest best (some a ∷ rows) r p h e =
      let ih =
        lowest_resume-IsLowest (better a best) rows r p (better-IsBest a best h)
          (on_issue_of a.on_issue _ r e).1 in
      record {
        kept = λ b e'.
            Above-trans b (better a best) r
              (rw e' (better-kept a b (zero_not_positive b.id (offered_positive b p (h b e')))))
              ih.kept;
        lowest = λ d m o. lowest_of d m o ih.kept ih.lowest;
        taken = λ c e'. taken_step a c best rows (ih.taken c e');
        offered = ih.offered;
      }
    where
      lowest_of :
          (d : Comment)
          → In (some d) (some a ∷ rows)
          → is_offered d ≡ true
          → ((b : Comment) → better a best ≡ some b → Above b r)
          → ((d : Comment) → In (some d) rows → is_offered d ≡ true → Above d r)
          → Above d r
      lowest_of d (inl e') o kept lowest =
          Above-trans d (better a best) r
            (rw (some_inj e') (better-taken a best h p (rw (← some_inj e') o))) kept
      lowest_of d (inr m) o kept lowest = lowest d m o

  -- Where the comments can be read: resumeInstruction takes an instruction among them that is offered,
  -- and no other that is offered has a lower id; it takes none only where none is offered.
  pub resume_instruction-lowest :
      (rows : List (Option Comment)) (r : Option Comment)
      → less_int after (pos 0) ≡ false
      → resume_instruction creator operators rows after excluded ≡ found r
      → ((d : Comment) → In (some d) rows → is_offered d ≡ true → Above d r)
        × ((c : Comment) → r ≡ some c → In (some c) rows × (is_offered c ≡ true))
  unfolding resume_instruction
  resume_instruction-lowest rows r p e =
      let l = lowest_resume-IsLowest none rows r p (λ b n. absurd (none-ne-some n)) e in
      (l.lowest, λ c e'. (among c (l.taken c e'), l.offered c e'))
    where
      among : (c : Comment) → (none ≡ some c) ⊎ In (some c) rows → In (some c) rows
      among c (inl n) = absurd (none-ne-some n)
      among c (inr m) = m
