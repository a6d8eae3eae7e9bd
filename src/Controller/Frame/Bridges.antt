-- ===== src/Controller/Frame/Bridges.antt =====
-- The ledger, the mirror and the bridges leave the controller's files alone.
use tool_flow.Prelude.{Str, arith, ℕ, Option, none, some, List, [], ◌∷◌, Bool}
use tool_flow.Types.{
  GrantRecord, Receipt, RunManifest, StepGrant, StepGrantUnsigned, ApprovalBinding, CompiledStep,
  PolicyArtifact, BridgeRequest, BridgeExecutionResult, CellId, read, research, session, elevated,
  Failure,
}
use tool_flow.Env.{Env}
use tool_flow.World.{Event, now_iso}
use tool_flow.Config.{RuntimeConfig}
use tool_flow.Crypto.{RuntimeKey}
use tool_flow.Ledger.{
  write_grant, read_grant, consume_grant, expire_grant, void_grant, write_receipt, try_read_receipt,
  read_approval, write_approval, append_event, write_manifest, read_manifest,
}
use tool_flow.Mirror.{read_mirror_index, sync_taskflow_mirror}
use tool_flow.Cells.Quiet.{
  run_read_cell-Quiet, run_research_cell-Quiet, run_session_cell-Quiet, run_elevated_cell-Quiet,
}
use tool_flow.Bridge.{
  ensure, verify_grant_for_request, ensure_local_transport, check_binding, check_approval,
  ensure_approval_for_elevated_request, emit_receipt, record_outcome, Consume, consume_grant_file,
  Handler, execute_same_process, execute_elevated, handler_of, request_of, dispatch_step,
  mint_step_grant,
}
use tool_flow.Controller.Frame.{KeepsFlows, KeepsFlows-Quiet, keep_rules}

pub write_grant-KeepsFlows : (run_id : Str) (r : GrantRecord) → KeepsFlows (write_grant run_id r)
unfolding write_grant
write_grant-KeepsFlows run_id r = search keep_rules

pub read_grant-KeepsFlows : (run_id id : Str) → KeepsFlows (read_grant run_id id)
unfolding read_grant
read_grant-KeepsFlows run_id id = search keep_rules

consume_grant-KeepsFlows :
    (env : Env) (run_id id receipt : Str) → KeepsFlows (consume_grant env run_id id receipt)
unfolding consume_grant
consume_grant-KeepsFlows env run_id id receipt =
    search (keep_rules, write_grant-KeepsFlows, read_grant-KeepsFlows)

pub expire_grant-KeepsFlows : (run_id id : Str) → KeepsFlows (expire_grant run_id id)
unfolding expire_grant
expire_grant-KeepsFlows run_id id =
    search (keep_rules, write_grant-KeepsFlows, read_grant-KeepsFlows)

pub void_grant-KeepsFlows : (run_id id : Str) → KeepsFlows (void_grant run_id id)
unfolding void_grant
void_grant-KeepsFlows run_id id = search (keep_rules, write_grant-KeepsFlows, read_grant-KeepsFlows)

write_receipt-KeepsFlows : (r : Receipt) → KeepsFlows (write_receipt r)
unfolding write_receipt
write_receipt-KeepsFlows r = search keep_rules

pub try_read_receipt-KeepsFlows :
    (run_id : Str) (id : Option Str) → KeepsFlows (try_read_receipt run_id id)
unfolding try_read_receipt
try_read_receipt-KeepsFlows run_id none = search keep_rules
try_read_receipt-KeepsFlows run_id (some []) = search keep_rules
try_read_receipt-KeepsFlows run_id (some (c ∷ id)) = search keep_rules

pub read_approval-KeepsFlows : (run_id step_id : Str) → KeepsFlows (read_approval run_id step_id)
unfolding read_approval
read_approval-KeepsFlows run_id step_id = search keep_rules

pub append_event-KeepsFlows :
    (env : Env) (run_id : Str) (e : Event) → KeepsFlows (append_event env run_id e)
unfolding append_event
append_event-KeepsFlows env run_id e = search keep_rules

pub write_manifest-KeepsFlows : (env : Env) (m : RunManifest) → KeepsFlows (write_manifest env m)
unfolding write_manifest
write_manifest-KeepsFlows env m = search keep_rules

pub read_manifest-KeepsFlows : (run_id : Str) → KeepsFlows (read_manifest run_id)
unfolding read_manifest
read_manifest-KeepsFlows run_id = search keep_rules

read_mirror_index-KeepsFlows : (env : Env) (root : Str) → KeepsFlows (read_mirror_index env root)
unfolding read_mirror_index now_iso
read_mirror_index-KeepsFlows env root = record { at = λ w. ground arith }

pub sync_taskflow_mirror-KeepsFlows :
    (env : Env) (config : RuntimeConfig) (m : RunManifest)
    → KeepsFlows (sync_taskflow_mirror env config m)
unfolding sync_taskflow_mirror
sync_taskflow_mirror-KeepsFlows env config m =
    search (keep_rules, read_mirror_index-KeepsFlows, append_event-KeepsFlows)

ensure-KeepsFlows : (test : Bool) (e : Failure) → KeepsFlows (ensure test e)
unfolding ensure
ensure-KeepsFlows test e = search keep_rules

verify_grant_for_request-KeepsFlows :
    (env : Env) (policy : PolicyArtifact) (key : RuntimeKey) (request : BridgeRequest)
    → KeepsFlows (verify_grant_for_request env policy key request)
unfolding verify_grant_for_request
verify_grant_for_request-KeepsFlows env policy key request =
    search (keep_rules, ensure-KeepsFlows, read_grant-KeepsFlows) depth 12

ensure_local_transport-KeepsFlows :
    (request : BridgeRequest) → KeepsFlows (ensure_local_transport request)
unfolding ensure_local_transport
ensure_local_transport-KeepsFlows request = search (keep_rules, ensure-KeepsFlows)

check_binding-KeepsFlows :
    (grant : StepGrantUnsigned) (hash : Str) (a : ApprovalBinding)
    → KeepsFlows (check_binding grant hash a)
unfolding check_binding
check_binding-KeepsFlows grant hash a = search (keep_rules, ensure-KeepsFlows)

check_approval-KeepsFlows :
    (grant : StepGrantUnsigned) (hash : Option Str) (a : Option ApprovalBinding)
    → KeepsFlows (check_approval grant hash a)
unfolding check_approval
check_approval-KeepsFlows grant none a = search keep_rules
check_approval-KeepsFlows grant (some []) a = search keep_rules
check_approval-KeepsFlows grant (some (c ∷ s)) none = search keep_rules
check_approval-KeepsFlows grant (some (c ∷ s)) (some a) = check_binding-KeepsFlows grant (c ∷ s) a

ensure_approval-KeepsFlows :
    (grant : StepGrantUnsigned) (a : Option ApprovalBinding)
    → KeepsFlows (ensure_approval_for_elevated_request grant a)
unfolding ensure_approval_for_elevated_request
ensure_approval-KeepsFlows grant a = check_approval-KeepsFlows grant grant.approval_hash a

emit_receipt-KeepsFlows :
    (env : Env) (request : BridgeRequest) (result : BridgeExecutionResult) (key : RuntimeKey)
    (at : ℕ)
    → KeepsFlows (emit_receipt env request result key at)
unfolding emit_receipt
emit_receipt-KeepsFlows env request result key at = search keep_rules

consume_grant_file-KeepsFlows :
    (env : Env) (run_id grant_id receipt_id : Str)
    → KeepsFlows (consume_grant_file env run_id grant_id receipt_id)
unfolding consume_grant_file
consume_grant_file-KeepsFlows env run_id grant_id receipt_id =
    search (keep_rules, read_grant-KeepsFlows)

record_outcome-KeepsFlows :
    (env : Env) (consume : Consume) (key : RuntimeKey) (request : BridgeRequest) (at : ℕ)
    (result : BridgeExecutionResult)
    → ((run_id grant_id receipt_id : Str) → KeepsFlows (consume run_id grant_id receipt_id))
    → KeepsFlows (record_outcome env consume key request at result)
unfolding record_outcome
record_outcome-KeepsFlows env consume key request at result keeps =
    search (keep_rules, emit_receipt-KeepsFlows, write_receipt-KeepsFlows, keeps)

handler_of-KeepsFlows :
    (env : Env) (allowed : List Str) (c : CellId) (request : BridgeRequest)
    → KeepsFlows (handler_of env allowed c request)
unfolding handler_of
handler_of-KeepsFlows env allowed read request = KeepsFlows-Quiet (run_read_cell-Quiet env request)
handler_of-KeepsFlows env allowed research request =
    KeepsFlows-Quiet (run_research_cell-Quiet env request)
handler_of-KeepsFlows env allowed session request =
    KeepsFlows-Quiet (run_session_cell-Quiet env request)
handler_of-KeepsFlows env allowed elevated request =
    KeepsFlows-Quiet (run_elevated_cell-Quiet env allowed request)

module _ (env : Env) (handler : Handler) (quiet : (r : BridgeRequest) → KeepsFlows (handler r))
    (policy : PolicyArtifact) (key : RuntimeKey) (request : BridgeRequest) where
  execute_same_process-KeepsFlows : KeepsFlows (execute_same_process env handler policy key request)
  unfolding execute_same_process
  execute_same_process-KeepsFlows = search (
    keep_rules, quiet, verify_grant_for_request-KeepsFlows, record_outcome-KeepsFlows,
    consume_grant-KeepsFlows,
  )

  execute_elevated-KeepsFlows : KeepsFlows (execute_elevated env handler policy key request)
  unfolding execute_elevated
  execute_elevated-KeepsFlows =
      search
        (
          keep_rules, quiet, verify_grant_for_request-KeepsFlows, ensure_local_transport-KeepsFlows,
          read_approval-KeepsFlows, ensure_approval-KeepsFlows, record_outcome-KeepsFlows,
          consume_grant_file-KeepsFlows,
        )
        depth 12

module _ (env : Env) (handler : Handler)
    (quiet : (r : BridgeRequest) → KeepsFlows (handler r)) where
  -- The cell decides the bridge.
  dispatch_to-KeepsFlows :
      (c : CellId) (policy : PolicyArtifact) (key : RuntimeKey) (request : BridgeRequest)
      → KeepsFlows (elim c [
        | elevated ↦ execute_elevated env handler policy key request
        | _ ↦ execute_same_process env handler policy key request
      ])
  dispatch_to-KeepsFlows elevated = execute_elevated-KeepsFlows env handler quiet
  dispatch_to-KeepsFlows read = execute_same_process-KeepsFlows env handler quiet
  dispatch_to-KeepsFlows research = execute_same_process-KeepsFlows env handler quiet
  dispatch_to-KeepsFlows session = execute_same_process-KeepsFlows env handler quiet

pub dispatch_step-KeepsFlows :
    (env : Env) (allowed : List Str) (policy : PolicyArtifact) (key : RuntimeKey)
    (step : CompiledStep) (grant : StepGrant)
    → KeepsFlows (dispatch_step env allowed policy key step grant)
unfolding dispatch_step
dispatch_step-KeepsFlows env allowed policy key step grant =
    dispatch_to-KeepsFlows env (handler_of env allowed step.cell)
      (handler_of-KeepsFlows env allowed step.cell) step.cell policy key (request_of step grant)

pub mint_step_grant-KeepsFlows :
    (env : Env) (key : RuntimeKey) (run_id : Str) (step : CompiledStep) (policy : PolicyArtifact)
    (ttl : ℕ) (hash : Option Str)
    → KeepsFlows (mint_step_grant env key run_id step policy ttl hash)
unfolding mint_step_grant
mint_step_grant-KeepsFlows env key run_id step policy ttl hash =
    search (keep_rules, write_grant-KeepsFlows)

pub write_approval-KeepsFlows : (a : ApprovalBinding) → KeepsFlows (write_approval a)
unfolding write_approval
write_approval-KeepsFlows a = search keep_rules
