-- ===== src/Bridge.antt =====
-- The bridges, which check a request before a cell carries it out and record the outcome:
-- packages/runtime/src/bridges/base, packages/elevated/src/bridge and
-- packages/runtime/src/control-plane/dispatcher.ts and grant-service.ts.
pub mod Verify
pub mod Outcome
pub mod Approved
pub mod Dispatch
pub mod Mint
use tool_flow.Prelude.{
  ℕ, ◌+◌, ◌*◌, Bool, true, false, not, ◌&&◌, ◌||◌, List, [], ◌∷◌, ◌++◌, Str, codes, Option, none,
  some, put, key2_eq, ◌==◌, str_eq, leb, if◌then◌else◌,
}
use tool_flow.Types.{
  CellId, read, research, session, elevated, cell_eq, Action, action_eq, BridgeId, bridge_v1, Json,
  bool, obj, Fields, get_field, GrantState, issued, consumed, ReceiptStatus, CompiledStep,
  PolicyArtifact, StepGrantUnsigned, StepGrant, GrantRecord, ReceiptUnsigned, Receipt,
  ApprovalBinding, BridgeRequest, BridgeExecutionResult, Result, ok, err, Failure, bad_signature,
  grant_expired, bridge_mismatch, action_mismatch, payload_mismatch, policy_mismatch,
  grant_not_issued, non_local_transport, approval_missing, approval_not_found,
  approval_hash_mismatch, approval_payload_mismatch, approval_policy_mismatch,
}
use tool_flow.Env.{Env}
use tool_flow.Hashing.{hash_json}
use tool_flow.Crypto.{RuntimeKey, sign_object, verify_object, grant_json, receipt_json}
use tool_flow.World.{M, ◌>>=◌, ◌>>◌, pure, throw, change, now_iso, random_hex}
use tool_flow.Ledger.{write_grant, read_grant, consume_grant, write_receipt, read_approval}
use tool_flow.Cells.{run_read_cell, run_research_cell, run_session_cell}
use tool_flow.Cells.Elevated.{run_elevated_cell}

-- `if (!test) throw new PolicyError(...)`
unfoldable pub ensure : Bool → Failure → M (Unit {0})
ensure test e = if test then pure tt else throw e

unfoldable pub bridge_beq : BridgeId → BridgeId → Bool
bridge_beq (bridge_v1 c) (bridge_v1 d) = c == d

abbrev pub is_issued : GrantState → Bool
is_issued issued = true
is_issued _ = false

-- `isExpired(expiresAt)` at a time
unfoldable pub is_expired : ℕ → ℕ → Bool
is_expired expires_at now = leb expires_at now

unfoldable pub verify_grant_for_request :
    Env → PolicyArtifact → RuntimeKey → BridgeRequest → M (Unit {0})
unfolding ensure verify_object now_iso is_expired bridge_beq hash_json read_grant
verify_grant_for_request env policy key request = do
  let grant = request.grant.unsigned
  ensure (verify_object env (grant_json env grant) request.grant.signature key) bad_signature
  now ← now_iso env
  ensure (not (is_expired grant.expires_at now)) grant_expired
  ensure (bridge_beq grant.bridge_id request.bridge_id && grant.cell_id == request.cell_id)
      bridge_mismatch
  ensure (grant.action == request.action) action_mismatch
  ensure (grant.payload_hash == hash_json env (obj request.payload)) payload_mismatch
  ensure (grant.policy_hash == policy.policy_hash) policy_mismatch
  rec ← read_grant grant.run_id grant.grant_id
  ensure (is_issued rec.state) (grant_not_issued rec.state)

-- `payload.localOnly === false`
unfoldable pub is_remote : Json → Bool
is_remote (bool false) = true
is_remote _ = false

unfoldable pub ensure_local_transport : BridgeRequest → M (Unit {0})
unfolding is_remote ensure
ensure_local_transport request =
    ensure (not (is_remote (get_field request.payload (codes "localOnly")))) non_local_transport

-- The three comparisons of an approval with a grant that names `hash`.
unfoldable pub check_binding : StepGrantUnsigned → Str → ApprovalBinding → M (Unit {0})
unfolding ensure
check_binding grant hash a = do
  ensure (a.approval_hash == hash) approval_hash_mismatch
  ensure (a.approved_payload_hash == grant.payload_hash) approval_payload_mismatch
  ensure (a.policy_hash == grant.policy_hash) approval_policy_mismatch

unfoldable pub check_approval :
    StepGrantUnsigned → Option Str → Option ApprovalBinding → M (Unit {0})
check_approval grant none approval = throw approval_missing
check_approval grant (some []) approval = throw approval_missing
check_approval grant (some (c ∷ s)) none = throw approval_not_found
check_approval grant (some (c ∷ s)) (some a) = check_binding grant (c ∷ s) a

-- An absent or empty hash is no binding.
unfoldable pub ensure_approval_for_elevated_request :
    StepGrantUnsigned → Option ApprovalBinding → M (Unit {0})
unfolding check_approval
ensure_approval_for_elevated_request grant approval =
    check_approval grant grant.approval_hash approval

unfoldable pub status_of : Bool → ReceiptStatus
status_of true = ReceiptStatus.succeeded
status_of false = ReceiptStatus.failed

unfoldable pub output_hash_of : Env → Option Fields → Option Str
unfolding hash_json
output_hash_of env none = none
output_hash_of env (some o) = some (hash_json env (obj o))

-- The receipt for a token and a time.
unfoldable pub receipt_at :
    Env → BridgeRequest → BridgeExecutionResult → RuntimeKey → ℕ → Str → ℕ → Receipt
unfolding status_of output_hash_of sign_object
receipt_at env request result key started_at token now =
    let grant = request.grant.unsigned in
    let unsigned : ReceiptUnsigned = record {
      receipt_id = codes "rcpt_" ++ token;
      grant_id = grant.grant_id;
      run_id = grant.run_id;
      step_id = grant.step_id;
      bridge_id = request.bridge_id;
      payload_hash = grant.payload_hash;
      policy_hash = grant.policy_hash;
      status = status_of result.ok;
      started_at = started_at;
      ended_at = now;
      output_hash = output_hash_of env result.output;
      error = result.error;
      key_id = key.key_id;
    } in
    record { unsigned = unsigned; signature = sign_object env (receipt_json env unsigned) key }

unfoldable pub emit_receipt :
    Env → BridgeRequest → BridgeExecutionResult → RuntimeKey → ℕ → M Receipt
unfolding random_hex now_iso
emit_receipt env request result key started_at = do
  token ← random_hex env
  now ← now_iso env
  pure (receipt_at env request result key started_at token now)

abbrev pub Handler : Type 0
Handler = BridgeRequest → M BridgeExecutionResult

-- How a bridge uses a grant up.
abbrev pub Consume : Type 0
Consume = (run_id grant_id receipt_id : Str) → M (Unit {0})

-- The function `consumeGrant` of packages/elevated/src/bridge/server.ts: it writes the file that it
-- has read, where that of the runtime's ledger writes the file of the id in the record.
unfoldable pub consume_grant_file : Env → Consume
unfolding read_grant now_iso
consume_grant_file env run_id grant_id receipt_id = do
  rec ← read_grant run_id grant_id
  now ← now_iso env
  let used : GrantRecord = record rec {
    state = consumed;
    consumed_at = some now;
    receipt_id = some receipt_id;
  }
  change λ l. record l { grants = put l.grants (run_id, grant_id) used }

-- The end of both `execute` methods: the receipt is written and the grant is used up.
unfoldable pub record_outcome :
    Env
    → Consume
    → RuntimeKey
    → BridgeRequest
    → ℕ
    → BridgeExecutionResult
    → M (Receipt × Option Fields)
record_outcome env consume key request started_at result = do
  receipt ← emit_receipt env request result key started_at
  write_receipt receipt
  consume receipt.unsigned.run_id receipt.unsigned.grant_id receipt.unsigned.receipt_id
  pure (receipt, result.output)

-- `SameProcessBridge.execute`
unfoldable pub execute_same_process :
    Env → Handler → PolicyArtifact → RuntimeKey → BridgeRequest → M (Receipt × Option Fields)
execute_same_process env handler policy key request = do
  started_at ← now_iso env
  verify_grant_for_request env policy key request
  result ← handler request
  record_outcome env (consume_grant env) key request started_at result

-- `ElevatedBridge.execute`
unfoldable pub execute_elevated :
    Env → Handler → PolicyArtifact → RuntimeKey → BridgeRequest → M (Receipt × Option Fields)
execute_elevated env handler policy key request = do
  started_at ← now_iso env
  verify_grant_for_request env policy key request
  ensure_local_transport request
  approval ← read_approval request.grant.unsigned.run_id request.grant.unsigned.step_id
  ensure_approval_for_elevated_request request.grant.unsigned approval
  result ← handler request
  record_outcome env (consume_grant_file env) key request started_at result

-- The table `handlers` of the dispatcher.
unfoldable pub handler_of : Env → List Str → CellId → Handler
handler_of env allowed read = run_read_cell env
handler_of env allowed research = run_research_cell env
handler_of env allowed session = run_session_cell env
handler_of env allowed elevated = run_elevated_cell env allowed

unfoldable pub request_of : CompiledStep → StepGrant → BridgeRequest
request_of step grant = record {
  bridge_id = step.bridge_id;
  cell_id = step.cell;
  action = step.action;
  payload = step.payload;
  grant = grant;
}

unfoldable pub dispatch_step :
    Env
    → List Str
    → PolicyArtifact
    → RuntimeKey
    → CompiledStep
    → StepGrant
    → M (Receipt × Option Fields)
dispatch_step env allowed policy key step grant = elim step.cell [
  | elevated ↦
      execute_elevated env (handler_of env allowed step.cell) policy key (request_of step grant)
  | _ ↦
      execute_same_process env (handler_of env allowed step.cell) policy key (request_of step grant)
]

-- The grant for a token, two readings of the clock and a nonce.
unfoldable pub grant_at :
    Env
    → RuntimeKey
    → Str
    → CompiledStep
    → PolicyArtifact
    → ℕ
    → Option Str
    → (token : Str) → (issued_at now : ℕ) → (nonce : Str) → StepGrant
unfolding sign_object
grant_at env key run_id step policy ttl approval_hash token issued_at now nonce =
    let unsigned : StepGrantUnsigned = record {
      grant_id = codes "sg_" ++ token;
      run_id = run_id;
      step_id = step.id;
      cell_id = step.cell;
      bridge_id = step.bridge_id;
      action = step.action;
      payload_hash = step.payload_hash;
      policy_hash = policy.policy_hash;
      approval_hash = approval_hash;
      replay_class = step.replay_class;
      issued_at = issued_at;
      expires_at = now + ttl * 1000;
      nonce = nonce;
      key_id = key.key_id;
    } in
    record { unsigned = unsigned; signature = sign_object env (grant_json env unsigned) key }

unfoldable pub mint_step_grant :
    Env → RuntimeKey → Str → CompiledStep → PolicyArtifact → ℕ → Option Str → M StepGrant
unfolding random_hex now_iso write_grant
mint_step_grant env key run_id step policy ttl approval_hash = do
  token ← random_hex env
  issued_at ← now_iso env
  now ← now_iso env
  nonce ← random_hex env
  let grant = grant_at env key run_id step policy ttl approval_hash token issued_at now nonce
  write_grant run_id
      (record { grant = grant; state = issued; consumed_at = none; receipt_id = none })
  pure grant
