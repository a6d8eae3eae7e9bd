-- ===== src/Bridge/Approved.antt =====
-- The check of an approval (packages/elevated/src/bridge/verify-approval.ts).
use tool_flow.Prelude.{
  Bool, true, false, ◌≡◌, refl, sym, ◌∙◌, ap, [], ◌∷◌, Str, Option, none, some, ◌==◌, str_eq,
  eq_of_beq, key2_eq,
}
use tool_flow.Types.{
  StepGrantUnsigned, ApprovalBinding, ok, Failure, approval_hash_mismatch,
  approval_payload_mismatch, approval_policy_mismatch,
}
use tool_flow.World.{World, ◌>>◌}
use tool_flow.Bridge.{ensure, check_binding, check_approval, ensure_approval_for_elevated_request}

-- An approval that binds the payload and policy of a grant, and that the grant names.
pub record IsApproved (g : StepGrantUnsigned) (o : Option ApprovalBinding) : Type 0 where
  pub approval : ApprovalBinding
  pub found : o ≡ some approval
  pub same_hash : g.approval_hash ≡ some approval.approval_hash
  pub same_payload : approval.approved_payload_hash ≡ g.payload_hash
  pub same_policy : approval.policy_hash ≡ g.policy_hash

-- Three checks in a row pass only together, and touch nothing.
ensures-pass :
    (x y z : Bool) (e f g : Failure) (w : World)
    → ((ensure x e >> (ensure y f >> ensure z g)) w).0 ≡ ok tt
    → (x ≡ true) × (y ≡ true) × (z ≡ true)
unfolding ensure
ensures-pass true true true e f g w h = (refl, refl, refl)
ensures-pass true true false e f g w h = absurd (cc)
ensures-pass true false z e f g w h = absurd (cc)
ensures-pass false y z e f g w h = absurd (cc)

ensures-ledger :
    (x y z : Bool) (e f g : Failure) (w : World)
    → ((ensure x e >> (ensure y f >> ensure z g)) w).1.ledger ≡ w.ledger
unfolding ensure
ensures-ledger true true true e f g w = refl
ensures-ledger true true false e f g w = refl
ensures-ledger true false z e f g w = refl
ensures-ledger false y z e f g w = refl

check_binding-tests :
    (g : StepGrantUnsigned) (h : Str) (a : ApprovalBinding) (w : World)
    → (check_binding g h a w).0 ≡ ok tt
    → ((a.approval_hash == h) ≡ true)
      × ((a.approved_payload_hash == g.payload_hash) ≡ true)
      × ((a.policy_hash == g.policy_hash) ≡ true)
unfolding check_binding
check_binding-tests g h a w e =
    ensures-pass (a.approval_hash == h) (a.approved_payload_hash == g.payload_hash)
      (a.policy_hash == g.policy_hash) approval_hash_mismatch approval_payload_mismatch
      approval_policy_mismatch w e

check_binding-ledger :
    (g : StepGrantUnsigned) (h : Str) (a : ApprovalBinding) (w : World)
    → (check_binding g h a w).1.ledger ≡ w.ledger
unfolding check_binding
check_binding-ledger g h a w =
    ensures-ledger (a.approval_hash == h) (a.approved_payload_hash == g.payload_hash)
      (a.policy_hash == g.policy_hash) approval_hash_mismatch approval_payload_mismatch
      approval_policy_mismatch w

check_approval-IsApproved :
    (g : StepGrantUnsigned) (h : Option Str) (o : Option ApprovalBinding) (w : World)
    → g.approval_hash ≡ h
    → (check_approval g h o w).0 ≡ ok tt
    → IsApproved g o
unfolding check_approval
check_approval-IsApproved g none o w s e = absurd (cc)
check_approval-IsApproved g (some []) o w s e = absurd (cc)
check_approval-IsApproved g (some (c ∷ h)) none w s e = absurd (cc)
check_approval-IsApproved g (some (c ∷ h)) (some a) w s e =
    let (same, payload, policy) = check_binding-tests g (c ∷ h) a w e in
    record {
      approval = a;
      found = refl;
      same_hash = s ∙ ap some (sym (eq_of_beq a.approval_hash (c ∷ h) same));
      same_payload = eq_of_beq a.approved_payload_hash g.payload_hash payload;
      same_policy = eq_of_beq a.policy_hash g.policy_hash policy;
    }

check_approval-ledger :
    (g : StepGrantUnsigned) (h : Option Str) (o : Option ApprovalBinding) (w : World)
    → (check_approval g h o w).1.ledger ≡ w.ledger
unfolding check_approval
check_approval-ledger g none o w = refl
check_approval-ledger g (some []) o w = refl
check_approval-ledger g (some (c ∷ h)) none w = refl
check_approval-ledger g (some (c ∷ h)) (some a) w = check_binding-ledger g (c ∷ h) a w

pub ensure_approval-IsApproved :
    (g : StepGrantUnsigned) (o : Option ApprovalBinding) (w : World)
    → (ensure_approval_for_elevated_request g o w).0 ≡ ok tt
    → IsApproved g o
unfolding ensure_approval_for_elevated_request
ensure_approval-IsApproved g o w e = check_approval-IsApproved g g.approval_hash o w refl e

pub ensure_approval-ledger :
    (g : StepGrantUnsigned) (o : Option ApprovalBinding) (w : World)
    → (ensure_approval_for_elevated_request g o w).1.ledger ≡ w.ledger
unfolding ensure_approval_for_elevated_request
ensure_approval-ledger g o w = check_approval-ledger g g.approval_hash o w
