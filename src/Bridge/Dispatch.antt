-- ===== src/Bridge/Dispatch.antt =====
-- What `dispatchStep` (control-plane/dispatcher.ts) has checked when it returns, and what becomes of
-- the grant.
use tool_flow.Prelude.{
  ℕ, true, false, ◌≡◌, refl, sym, ◌∙◌, ap, List, Str, Option, some, str_eq, lookup, key2_eq, arith,
  subst, ◌≢◌,
}
use tool_flow.Types.{
  CellId, read, research, session, elevated, is_elevated, CompiledStep, StepGrant, PolicyArtifact,
  Receipt, Fields, BridgeRequest, ApprovalBinding, Result, ok,
}
use tool_flow.Env.{Env}
use tool_flow.Crypto.{RuntimeKey}
use tool_flow.World.{World, M, After, After-bind, ◌>>=◌, ◌>>◌, now_iso}
use tool_flow.Ledger.{read_approval}
use tool_flow.Cells.Quiet.{Quiet}
use tool_flow.Bridge.{
  Handler, consume_grant_file, verify_grant_for_request, record_outcome, execute_same_process,
  execute_elevated, handler_of, request_of, dispatch_step, ensure_local_transport,
  ensure_approval_for_elevated_request,
}
use tool_flow.Bridge.Verify.{IsValid, verify_grant_for_request_iff}
use tool_flow.Bridge.Outcome.{
  handler_of-Quiet, IsKeyed, Recorded, tick, Checked, verify-Checked, handle-Settled,
  consume_grant_file-UsesUp, same_process-Settled,
}
use tool_flow.Bridge.Approved.{IsApproved, ensure_approval-IsApproved, ensure_approval-ledger}

ensure_local_transport-ledger :
    (request : BridgeRequest) (w : World) → (ensure_local_transport request w).1.ledger ≡ w.ledger
unfolding ensure_local_transport
ensure_local_transport-ledger request w = ground arith

module _ (env : Env) (handler : Handler) (policy : PolicyArtifact) (key : RuntimeKey)
    (request : BridgeRequest) (quiet : Quiet (handler request)) (w : World)
    (keyed : IsKeyed w.ledger) where
  abbrev stored_approval : Option ApprovalBinding
  stored_approval =
      lookup w.ledger.approvals (request.grant.unsigned.run_id, request.grant.unsigned.step_id)

  abbrev SettledElevated : Result (Receipt × Option Fields) → World → Type 0
  SettledElevated r v =
      (p : Receipt × Option Fields)
      → r ≡ ok p
      → IsValid env policy key request (tick w)
        × Recorded request p.0 w v
        × IsApproved request.grant.unsigned stored_approval

  approved-Settled :
      (t : ℕ) (v : World) (o : Option ApprovalBinding)
      → IsValid env policy key request (tick w)
      → v.ledger ≡ w.ledger
      → o ≡ stored_approval
      → After SettledElevated
          (ensure_approval_for_elevated_request request.grant.unsigned o
            >> (handler request >>= record_outcome env (consume_grant_file env) key request t))
          v
  approved-Settled t v o i l same =
      After-bind (λ r u. (r ≡ ok tt → IsApproved request.grant.unsigned o) × (u.ledger ≡ w.ledger))
        SettledElevated (ensure_approval_for_elevated_request request.grant.unsigned o) _ v
        (
          ensure_approval-IsApproved request.grant.unsigned o v,
          ensure_approval-ledger request.grant.unsigned o v ∙ l,
        )
        (λ x u c p h.
          let (valid, recorded) =
            handle-Settled env handler policy key request quiet w keyed (consume_grant_file env)
              (consume_grant_file-UsesUp env) t u i c.1 p h in
          (valid, recorded, subst (IsApproved request.grant.unsigned) same (c.0 refl)))
        (λ e u c p h. absurd (cc))

  elevated-Settled : After SettledElevated (execute_elevated env handler policy key request) w
  unfolding execute_elevated now_iso read_approval
  elevated-Settled =
      After-bind (Checked env handler policy key request quiet w keyed) SettledElevated
        (verify_grant_for_request env policy key request) _ (tick w)
        (verify-Checked env handler policy key request quiet w keyed)
        (λ u v c.
          After-bind (λ r x. x.ledger ≡ w.ledger) SettledElevated (ensure_local_transport request) _
            v (ensure_local_transport-ledger request v ∙ c.1)
            (λ y x m. approved-Settled (env.clock w.ticks) x _ (c.0 refl) m (
              ap
                (λ k.
                  lookup k.approvals
                    (request.grant.unsigned.run_id, request.grant.unsigned.step_id))
                m))
            (λ e x m p h. absurd (cc)))
        (λ e v c p h. absurd (cc))

-- The outcome of a dispatched step: the request was valid at the check, its grant is now used up
-- for a receipt that is stored, and an elevated step had an approval of its payload and policy.
pub record IsDispatched (env : Env) (policy : PolicyArtifact) (key : RuntimeKey)
    (step : CompiledStep) (grant : StepGrant) (receipt : Receipt) (w v : World) : Type 0 where
  pub valid : IsValid env policy key (request_of step grant) (tick w)
  pub recorded : Recorded (request_of step grant) receipt w v
  pub approved :
      is_elevated step.cell ≡ true
      → IsApproved grant.unsigned
          (lookup w.ledger.approvals (grant.unsigned.run_id, grant.unsigned.step_id))

module _ (env : Env) (allowed : List Str) (policy : PolicyArtifact) (key : RuntimeKey) where
  abbrev Outcome :
      CompiledStep → StepGrant → World → Result (Receipt × Option Fields) → World → Type 0
  Outcome step grant w r v =
      (p : Receipt × Option Fields) → r ≡ ok p → IsDispatched env policy key step grant p.0 w v

  abbrev bridge_for : CellId → CompiledStep → StepGrant → M (Receipt × Option Fields)
  bridge_for elevated step grant =
      execute_elevated env (handler_of env allowed step.cell) policy key (request_of step grant)
  bridge_for _ step grant =
      execute_same_process env (handler_of env allowed step.cell) policy key (request_of step grant)

  ordinary-Outcome :
      (step : CompiledStep) (grant : StepGrant) (w : World)
      → IsKeyed w.ledger
      → is_elevated step.cell ≡ false
      → After
          (Outcome step grant w)
          (execute_same_process env
            (handler_of env allowed step.cell)
            policy
            key
            (request_of step grant))
          w
  ordinary-Outcome step grant w keyed n p h =
      let (valid, recorded) =
        same_process-Settled env (handler_of env allowed step.cell) policy key
          (request_of step grant) (handler_of-Quiet env allowed step.cell (request_of step grant)) w
          keyed p h in
      record { valid = valid; recorded = recorded; approved = λ e. absurd (cc) }

  elevated-Outcome :
      (step : CompiledStep) (grant : StepGrant) (w : World)
      → IsKeyed w.ledger
      → After
          (Outcome step grant w)
          (execute_elevated env
            (handler_of env allowed step.cell)
            policy
            key
            (request_of step grant))
          w
  unfolding request_of
  elevated-Outcome step grant w keyed p h =
      let (valid, recorded, approved) =
        elevated-Settled env (handler_of env allowed step.cell) policy key (request_of step grant)
          (handler_of-Quiet env allowed step.cell (request_of step grant)) w keyed p h in
      record { valid = valid; recorded = recorded; approved = λ e. approved }

  dispatch-by_cell :
      (c : CellId) (step : CompiledStep) (grant : StepGrant) (w : World)
      → step.cell ≡ c
      → IsKeyed w.ledger
      → After (Outcome step grant w) (bridge_for c step grant) w
  dispatch-by_cell elevated step grant w e k = elevated-Outcome step grant w k
  dispatch-by_cell read step grant w e k = ordinary-Outcome step grant w k (rw e refl)
  dispatch-by_cell research step grant w e k = ordinary-Outcome step grant w k (rw e refl)
  dispatch-by_cell session step grant w e k = ordinary-Outcome step grant w k (rw e refl)

  bridge_for-eq :
      (c : CellId) (step : CompiledStep) (grant : StepGrant) (w : World)
      → step.cell ≡ c
      → dispatch_step env allowed policy key step grant w ≡ bridge_for c step grant w
  unfolding dispatch_step
  bridge_for-eq elevated step grant w e = rw e
  bridge_for-eq read step grant w e = rw e
  bridge_for-eq research step grant w e = rw e
  bridge_for-eq session step grant w e = rw e

  -- If `dispatchStep` returns a receipt, from a ledger whose grant records stand under their own
  -- ids, then the grant was valid for the request at the check, its record is now `consumed` by
  -- that receipt, which is stored and names the run, step and grant, and an elevated step had a
  -- stored approval with the hash that the grant names, its payload hash and its policy hash.
  pub dispatch_step-IsDispatched :
      (step : CompiledStep) (grant : StepGrant) (w : World) (p : Receipt × Option Fields)
      → IsKeyed w.ledger
      → (dispatch_step env allowed policy key step grant w).0 ≡ ok p
      → IsDispatched env policy key step grant p.0 w
          (dispatch_step env allowed policy key step grant w).1
  dispatch_step-IsDispatched step grant w p k h =
      let e = bridge_for-eq step.cell step grant w refl in
      subst (λ r. IsDispatched env policy key step grant p.0 w r.1) (sym e)
        (dispatch-by_cell step.cell step grant w refl k p (subst (λ r. r.0 ≡ ok p) e h))

-- After `dispatchStep` has returned a receipt, from a ledger whose grant records stand under their
-- own ids, no request with the same grant passes the check again, with whatever policy and key, in
-- any state of the world with the same grant records.
pub dispatch_step-single_use :
    (env : Env) (allowed : List Str) (policy : PolicyArtifact) (key : RuntimeKey)
    (step : CompiledStep) (grant : StepGrant) (w : World) (p : Receipt × Option Fields)
    (later : World) (policy' : PolicyArtifact) (key' : RuntimeKey) (request : BridgeRequest)
    → IsKeyed w.ledger
    → (dispatch_step env allowed policy key step grant w).0 ≡ ok p
    → later.ledger.grants ≡ (dispatch_step env allowed policy key step grant w).1.ledger.grants
    → request.grant ≡ grant
    → (verify_grant_for_request env policy' key' request later).0 ≢ ok tt
unfolding request_of
dispatch_step-single_use env allowed policy key step grant w p later policy' key' request k h same g
      v =
    let d = dispatch_step-IsDispatched env allowed policy key step grant w p k h in
    let i = (verify_grant_for_request_iff env policy' key' request later).0 v in
    let found : lookup later.ledger.grants (grant.unsigned.run_id, grant.unsigned.grant_id)
        ≡ some i.stored =
      subst
        (λ x. lookup later.ledger.grants (x.unsigned.run_id, x.unsigned.grant_id) ≡ some i.stored) g
        i.found in
    let used =
      subst (λ t. lookup t (grant.unsigned.run_id, grant.unsigned.grant_id) ≡ some i.stored) same
        found in
    cc (d.recorded.found, d.recorded.is_used, i.unused)
