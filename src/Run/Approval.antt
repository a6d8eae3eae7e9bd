-- ===== src/Run/Approval.antt =====
-- `approveStep` (control-plane/approval-service.ts) and the bridge's check of an approval.
use tool_flow.Prelude.{
  ℕ, ◌≡◌, ◌≢◌, refl, [], ◌∷◌, Str, some, lookup, lookup-put_self, key2_eq, str_eq, beq_self, arith,
  subst,
}
use tool_flow.Types.{CompiledStep, PolicyArtifact, ApprovalBinding, StepGrantUnsigned, Json, ok}
use tool_flow.Env.{Env}
use tool_flow.Hashing.{hash_json}
use tool_flow.Crypto.{RuntimeKey}
use tool_flow.World.{World, now_iso}
use tool_flow.Ledger.{write_approval}
use tool_flow.Bridge.{
  ensure, check_binding, check_approval, ensure_approval_for_elevated_request, grant_at,
}
use tool_flow.Run.Operator.{approve_step}

check_binding-of_same :
    (g : StepGrantUnsigned) (a : ApprovalBinding) (w : World)
    → a.approved_payload_hash ≡ g.payload_hash
    → a.policy_hash ≡ g.policy_hash
    → (check_binding g a.approval_hash a w).0 ≡ ok tt
unfolding check_binding ensure
check_binding-of_same g a w p q = ground (
  arith,
  beq_self a.approval_hash,
  (str_eq.beq_iff a.approved_payload_hash g.payload_hash).1 p,
  (str_eq.beq_iff a.policy_hash g.policy_hash).1 q,
)

check_approval-of_same :
    (g : StepGrantUnsigned) (a : ApprovalBinding) (h : Str) (w : World)
    → a.approval_hash ≡ h
    → h ≢ []
    → a.approved_payload_hash ≡ g.payload_hash
    → a.policy_hash ≡ g.policy_hash
    → (check_approval g (some h) (some a) w).0 ≡ ok tt
unfolding check_approval
check_approval-of_same g a [] w e n p q = absurd (n refl)
check_approval-of_same g a (c ∷ s) w e n p q =
    subst (λ x. (check_binding g x a w).0 ≡ ok tt) e (check_binding-of_same g a w p q)

-- `approveStep` never fails. If no SHA-256 text is empty, then the stored approval lets the bridge's
-- check pass for every grant that is minted for the step with the hash of the approval and the
-- approved policy.
pub approve_step-ensure_approval :
    (env : Env) (run_id : Str) (step : CompiledStep) (policy : PolicyArtifact) (approved_by : Str)
    (w later : World) (key : RuntimeKey) (ttl : ℕ) (token : Str) (issued_at now : ℕ) (nonce : Str)
    → ((value : Json) → env.digest value ≢ [])
    → (a : ApprovalBinding) × ((approve_step env run_id step policy.policy_hash approved_by w).0
        ≡ ok a)
      × (lookup
            (approve_step env run_id step policy.policy_hash approved_by w).1.ledger.approvals
            (run_id, step.id)
          ≡ some a)
      × ((ensure_approval_for_elevated_request
            (grant_at env key run_id step policy ttl
              (some a.approval_hash)
              token
              issued_at
              now
              nonce).unsigned
            (some a)
            later).0
          ≡ ok tt)
unfolding approve_step write_approval now_iso grant_at hash_json
    ensure_approval_for_elevated_request
approve_step-ensure_approval env run_id step policy approved_by w later key ttl token i now nonce
      n =
    (
      _,
      refl,
      lookup-put_self w.ledger.approvals _ _,
      check_approval-of_same _ _ _ later refl (n _) refl refl,
    )
