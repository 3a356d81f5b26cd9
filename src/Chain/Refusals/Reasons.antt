-- ===== src/Chain/Refusals/Reasons.antt =====
-- approval.go, ApprovalFailureReason, and chain.go, the record of a refusal.
use lass_das.Base.{
  ◌<>◌, String, ◌==◌, ==→≡, ==_refl, ◌≡◌, refl, inl, inr, Bool-cases, In, ◌&&◌, arith,
}
use lass_das.Chain.Types.{Time}
use lass_das.Chain.Refusals.{
  approval_reasons, approval_receipt_prefix, approval_failure_text, approval_failure_reason,
  approval_failure_record, reason_among,
}
use lass_das.Chain.Records.{refusal}

failure_text-reason :
    (reason : String)
    → In reason approval_reasons
    → reason_among approval_reasons (approval_failure_text reason) ≡ reason
unfolding reason_among approval_failure_text ◌==◌
failure_text-reason reason (inl e) = rw e refl
failure_text-reason reason (inr (inl e)) = rw e refl
failure_text-reason reason (inr (inr (inl e))) = rw e refl
failure_text-reason reason (inr (inr (inr (inl e)))) = rw e refl
failure_text-reason reason (inr (inr (inr (inr (inl e))))) = rw e refl
failure_text-reason reason (inr (inr (inr (inr (inr (inl e)))))) = rw e refl
failure_text-reason reason (inr (inr (inr (inr (inr (inr (inl e))))))) = rw e refl
failure_text-reason reason (inr (inr (inr (inr (inr (inr (inr (inl e)))))))) = rw e refl
failure_text-reason reason (inr (inr (inr (inr (inr (inr (inr (inr (inl e))))))))) = rw e refl
failure_text-reason reason (inr (inr (inr (inr (inr (inr (inr (inr (inr (inl e)))))))))) = rw e refl
failure_text-reason reason (inr (inr (inr (inr (inr (inr (inr (inr (inr (inr (inl e))))))))))) =
    rw e refl
failure_text-reason reason
      (inr (inr (inr (inr (inr (inr (inr (inr (inr (inr (inr (inl e)))))))))))) =
    rw e refl
failure_text-reason reason
      (inr (inr (inr (inr (inr (inr (inr (inr (inr (inr (inr (inr (inl e))))))))))))) =
    rw e refl
failure_text-reason reason
      (inr (inr (inr (inr (inr (inr (inr (inr (inr (inr (inr (inr (inr e))))))))))))) =
    absurd e

receipt_text-reason :
    reason_among approval_reasons (approval_receipt_prefix <> "bundle_credential")
    ≡ "bundle_credential"
unfolding reason_among approval_failure_text ◌==◌
receipt_text-reason = refl

-- A known reason of a refusal is read back from the record that a receipt leaves, whichever stage
-- it refuses and whichever of the two texts it has.
pub refusal-approval_failure_reason :
    (target role reason : String) (now : Time)
    → In reason approval_reasons
    → approval_failure_reason (refusal target role reason now) ≡ reason
unfolding approval_failure_reason approval_failure_record refusal
refusal-approval_failure_reason target role reason now known =
    elim (Bool-cases ((target == role) && (reason == "bundle_credential"))) [
      | inr e ↦ rw (e, ==_refl "runtime") (failure_text-reason reason known)
      | inl e ↦
          rw (e, ==_refl "runtime")
            (rw (==→≡ reason "bundle_credential" (ground (arith, e))) receipt_text-reason)
    ]
