-- ===== src/Chain/Refusals/Pauses.antt =====
-- approval.go, PauseApproval and ApprovalPaused, and chain.go, Run, before anything is started.
use lass_das.Base.{
  String, ◌==◌, ==→≡, ==_refl, true, false, ◌≡◌, refl, inl, inr, Bool-cases, In, last?-snoc,
  is_some, lookup_or, arith,
}
use lass_das.Chain.Types.{State, Time}
use lass_das.Chain.Refusals.{
  approval_pauses, approval_paused, approval_pause_text, pause_approval, reason_of_text,
}
use lass_das.Chain.Run.Launch.{held}

-- What a configured pause has: its text, which is its own, and a reason.
record IsPause (pause : String × String) : Type 0 where
  has_text : approval_pause_text pause.0 ≡ pause.1
  read_back : reason_of_text approval_pauses pause.1 ≡ pause.0
  text_not_empty : (pause.1 == "") ≡ false
  reason_not_empty : (pause.0 == "") ≡ false

pauses-IsPause : (pause : String × String) → In pause approval_pauses → IsPause pause
unfolding approval_pause_text reason_of_text ◌==◌ lookup_or
pauses-IsPause pause (inl e) =
    rw e
      (record { has_text = refl; read_back = refl; text_not_empty = refl; reason_not_empty = refl })
pauses-IsPause pause (inr (inl e)) =
    rw e
      (record { has_text = refl; read_back = refl; text_not_empty = refl; reason_not_empty = refl })
pauses-IsPause pause (inr (inr (inl e))) =
    rw e
      (record { has_text = refl; read_back = refl; text_not_empty = refl; reason_not_empty = refl })
pauses-IsPause pause (inr (inr (inr (inl e)))) =
    rw e
      (record { has_text = refl; read_back = refl; text_not_empty = refl; reason_not_empty = refl })
pauses-IsPause pause (inr (inr (inr (inr (inl e))))) =
    rw e
      (record { has_text = refl; read_back = refl; text_not_empty = refl; reason_not_empty = refl })
pauses-IsPause pause (inr (inr (inr (inr (inr e))))) = absurd e

paused_reason :
    (s : State) (reason text : String) (now : Time)
    → In (reason, text) approval_pauses
    → approval_paused (pause_approval s reason now) ≡ reason
unfolding pause_approval approval_paused
paused_reason s reason text now known =
    let p = pauses-IsPause (reason, text) known in
    elim (Bool-cases (approval_paused s == reason)) [
      | inl already ↦
          rw (p.has_text, p.text_not_empty, already) (==→≡ (approval_paused s) reason already)
      | inr fresh ↦
          rw
            (
              p.has_text,
              p.text_not_empty,
              fresh,
              approval_paused,
              last?-snoc s.history,
              ==_refl "router",
              ==_refl "runtime",
              ==_refl "",
            )
            p.read_back
    ]

paused-held : (s : State) → (approval_paused s == "") ≡ false → is_some (held s) ≡ true
unfolding held
paused-held s e = ground (arith, e)

-- After PauseApproval with one of the configured reasons the request reads as paused for that
-- reason, and a run that loads it is held.
pub pause_approval-held :
    (s : State) (reason text : String) (now : Time)
    → In (reason, text) approval_pauses
    → (approval_paused (pause_approval s reason now) ≡ reason)
      × (is_some (held (pause_approval s reason now)) ≡ true)
pause_approval-held s reason text now known =
    let p = pauses-IsPause (reason, text) known in
    let e = paused_reason s reason text now known in
    (e, paused-held (pause_approval s reason now) (rw e p.reason_not_empty))
