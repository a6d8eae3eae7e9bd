-- ===== src/Elevated.antt =====
-- The elevated lane outside the dispatcher's path: packages/elevated/src/bridge/server.ts over its
-- own interface to a ledger, packages/elevated/src/config/resolve.ts, and the copies under
-- packages/runtime/src/bridges/elevated and cells/elevated.
pub mod Agreement
use tool_flow.Prelude.{
  ℕ, Bool, not, ◌&&◌, List, [], ◌∷◌, ◌++◌, Str, codes, Option, none, some, or_else, ◌==◌, str_eq,
}
use tool_flow.Types.{
  cell_eq, action_eq, Json, obj, Fields, consumed, GrantRecord, PolicyArtifact, ReceiptUnsigned,
  Receipt, ApprovalBinding, BridgeRequest, BridgeExecutionResult, bad_signature, grant_expired,
  bridge_mismatch, action_mismatch, payload_mismatch, policy_mismatch, grant_not_issued,
  approval_missing, approval_not_found,
}
use tool_flow.Env.{Env}
use tool_flow.Hashing.{hash_json, sort_for_json}
use tool_flow.Config.Resolve.{Variables, Overrides, commands_in, resolve_config}
use tool_flow.Config.{RuntimeConfig}
use tool_flow.Crypto.{RuntimeKey, from_hex, grant_json, receipt_json}
use tool_flow.World.{M, ◌>>=◌, ◌>>◌, pure, throw, now_iso, random_hex}
use tool_flow.Ledger.{write_receipt, consume_grant, read_approval}
use tool_flow.Cells.Elevated.{run_elevated_cell}
use tool_flow.Bridge.{
  ensure, bridge_beq, is_issued, is_expired, ensure_local_transport, check_binding,
  ensure_approval_for_elevated_request, status_of, output_hash_of, Handler,
  verify_grant_for_request, emit_receipt,
}

-- What the bridge needs of a store, with the paths that it reads and writes.
pub record LedgerLike : Type 0 where
  pub read_grant_record : (run_id grant_id : Str) → M GrantRecord
  pub write_grant_record : (run_id grant_id : Str) → GrantRecord → M (Unit {0})
  pub write_receipt_file : (run_id receipt_id : Str) → Receipt → M (Unit {0})
  pub try_read_approval : (run_id step_id : Str) → M (Option ApprovalBinding)

-- `createHmac("sha256", secret).update(canonicalJson(value)).digest("hex")`
unfoldable pub server_sign_object : Env → Json → RuntimeKey → Str
server_sign_object env value key = env.hmac key.secret (sort_for_json value)

unfoldable pub server_verify_object : Env → Json → Str → RuntimeKey → Bool
unfolding server_sign_object
server_verify_object env value signature key =
    from_hex (server_sign_object env value key) == from_hex signature

-- The receipt of `emitReceipt`.
unfoldable pub server_emit_receipt :
    Env → BridgeRequest → BridgeExecutionResult → RuntimeKey → ℕ → M Receipt
unfolding server_sign_object random_hex now_iso status_of output_hash_of
server_emit_receipt env request result key started_at = do
  token ← random_hex env
  now ← now_iso env
  let grant = request.grant.unsigned
  let unsigned : ReceiptUnsigned = record {
    receipt_id = codes "rcpt_" ++ token;
    grant_id = grant.grant_id;
    run_id = grant.run_id;
    step_id = grant.step_id;
    bridge_id = request.bridge_id;
    payload_hash = grant.payload_hash;
    policy_hash = grant.policy_hash;
    status = status_of result.ok;
    started_at = started_at;
    ended_at = now;
    output_hash = output_hash_of env result.output;
    error = result.error;
    key_id = key.key_id;
  }
  pure (record {
    unsigned = unsigned;
    signature = server_sign_object env (receipt_json env unsigned) key;
  })

module _ (env : Env) (store : LedgerLike) where
  unfoldable pub server_verify_grant : PolicyArtifact → RuntimeKey → BridgeRequest → M (Unit {0})
  unfolding ensure server_verify_object now_iso is_expired bridge_beq hash_json
  server_verify_grant policy key request = do
    let grant = request.grant.unsigned
    ensure (server_verify_object env (grant_json env grant) request.grant.signature key)
        bad_signature
    now ← now_iso env
    ensure (not (is_expired grant.expires_at now)) grant_expired
    ensure (bridge_beq grant.bridge_id request.bridge_id && grant.cell_id == request.cell_id)
        bridge_mismatch
    ensure (grant.action == request.action) action_mismatch
    ensure (grant.payload_hash == hash_json env (obj request.payload)) payload_mismatch
    ensure (grant.policy_hash == policy.policy_hash) policy_mismatch
    rec ← store.read_grant_record grant.run_id grant.grant_id
    ensure (is_issued rec.state) (grant_not_issued rec.state)

  unfoldable pub server_write_receipt : Receipt → M (Unit {0})
  server_write_receipt r = store.write_receipt_file r.unsigned.run_id r.unsigned.receipt_id r

  unfoldable pub server_consume_grant : (run_id grant_id receipt_id : Str) → M (Unit {0})
  unfolding now_iso
  server_consume_grant run_id grant_id receipt_id = do
    rec ← store.read_grant_record run_id grant_id
    now ← now_iso env
    store.write_grant_record run_id grant_id
        (record rec { state = consumed; consumed_at = some now; receipt_id = some receipt_id })

  -- `ElevatedBridge.execute` over the interface
  unfoldable pub server_execute :
      Handler → PolicyArtifact → RuntimeKey → BridgeRequest → M (Receipt × Option Fields)
  server_execute handler policy key request = do
    started_at ← now_iso env
    server_verify_grant policy key request
    ensure_local_transport request
    approval ← store.try_read_approval request.grant.unsigned.run_id request.grant.unsigned.step_id
    ensure_approval_for_elevated_request request.grant.unsigned approval
    result ← handler request
    receipt ← server_emit_receipt env request result key started_at
    server_write_receipt receipt
    server_consume_grant receipt.unsigned.run_id receipt.unsigned.grant_id
        receipt.unsigned.receipt_id
    pure (receipt, result.output)

-- `ensureApprovalForElevatedRequest` of the copy, which reads the approval itself.
unfoldable pub copy_ensure_approval : BridgeRequest → M (Unit {0})
copy_ensure_approval request = check request.grant.unsigned.approval_hash
  where
    found : Str → Option ApprovalBinding → M (Unit {0})
    found hash none = throw approval_not_found
    found hash (some a) = check_binding request.grant.unsigned hash a

    check : Option Str → M (Unit {0})
    check none = throw approval_missing
    check (some []) = throw approval_missing
    check (some (c ∷ s)) = do
      a ← read_approval request.grant.unsigned.run_id request.grant.unsigned.step_id
      found (c ∷ s) a

-- `ElevatedBridge.execute` of the copy: it does not look at the transport.
unfoldable pub copy_execute :
    Env → Handler → PolicyArtifact → RuntimeKey → BridgeRequest → M (Receipt × Option Fields)
copy_execute env handler policy key request = do
  started_at ← now_iso env
  verify_grant_for_request env policy key request
  copy_ensure_approval request
  result ← handler request
  receipt ← emit_receipt env request result key started_at
  write_receipt receipt
  consume_grant env receipt.unsigned.run_id receipt.unsigned.grant_id receipt.unsigned.receipt_id
  pure (receipt, result.output)

-- `resolveElevatedConfig().allowedCommands`
unfoldable pub resolve_elevated_config : Variables → List Str
unfolding commands_in
resolve_elevated_config vars = or_else (commands_in (vars (codes "TOOLFLOW_ELEVATED_ALLOW"))) []

abbrev pub no_overrides : Overrides
no_overrides = record {
  ledger_root = none;
  taskflow_mirror_root = none;
  grant_ttl_seconds = none;
  enable_elevated = none;
  elevated_allowed_commands = none;
  progress_updates = none;
}

-- The cell of the copy takes its commands from `resolveConfig()`.
unfoldable pub copy_run_elevated_cell : Env → Variables → BridgeRequest → M BridgeExecutionResult
copy_run_elevated_cell env vars request =
    run_elevated_cell env (resolve_config env vars no_overrides).elevated_allowed_commands request
