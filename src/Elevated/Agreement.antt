-- ===== src/Elevated/Agreement.antt =====
-- The copies of the elevated lane and what the dispatcher uses.
use tool_flow.Prelude.{
  ℕ, ◌≡◌, refl, sym, ◌∙◌, ap, Bool, true, false, Str, codes, Option, lookup, key2_eq, put, arith,
  Option-cases, inl, inr,
}
use tool_flow.Types.{
  get_field, Fields, PolicyArtifact, Receipt, ApprovalBinding, BridgeRequest, BridgeExecutionResult,
  Result, Failure, ok, err,
}
use tool_flow.Env.{Env}
use tool_flow.Config.{default_config}
use tool_flow.Config.Resolve.{Variables, resolve_config}
use tool_flow.Crypto.{RuntimeKey, sign_object, verify_object}
use tool_flow.World.{random_hex, World, M, ◌>>=◌, ◌>>◌, and_then, pure, change, now_iso}
use tool_flow.Ledger.{read_grant, write_grant, consume_grant, write_receipt, read_approval}
use tool_flow.Bridge.{
  ensure, is_remote, verify_grant_for_request, ensure_local_transport, check_approval,
  check_binding, ensure_approval_for_elevated_request, receipt_at, emit_receipt, Handler,
  record_outcome, execute_elevated, consume_grant_file,
}
use tool_flow.Cells.Quiet.{Quiet}
use tool_flow.Bridge.Outcome.{IsKeyed}
use tool_flow.Elevated.{
  LedgerLike, server_sign_object, server_verify_object, server_emit_receipt, server_verify_grant,
  server_write_receipt, server_consume_grant, server_execute, copy_ensure_approval, copy_execute,
  resolve_elevated_config, no_overrides,
}

-- The runtime's ledger as the bridge sees it.
abbrev pub ledger_store : LedgerLike
ledger_store = record {
  read_grant_record = read_grant;
  write_grant_record =
      λ run_id grant_id rec. change λ l. record l { grants = put l.grants (run_id, grant_id) rec };
  write_receipt_file = λ run_id receipt_id r.
      change λ l. record l { receipts = put l.receipts (run_id, receipt_id) r };
  try_read_approval = read_approval;
}

-- The steps of the bridge with the runtime's own `consumeGrant` at the end.
abbrev pub execute_in_runtime :
    Env → Handler → PolicyArtifact → RuntimeKey → BridgeRequest → M (Receipt × Option Fields)
execute_in_runtime env handler policy key request = do
  started_at ← now_iso env
  verify_grant_for_request env policy key request
  ensure_local_transport request
  approval ← read_approval request.grant.unsigned.run_id request.grant.unsigned.step_id
  ensure_approval_for_elevated_request request.grant.unsigned approval
  result ← handler request
  record_outcome env (consume_grant env) key request started_at result

copy_ensure-check :
    (request : BridgeRequest) (w : World)
    → copy_ensure_approval request w
      ≡ ensure_approval_for_elevated_request request.grant.unsigned
          (lookup w.ledger.approvals
            (request.grant.unsigned.run_id, request.grant.unsigned.step_id))
          w
unfolding copy_ensure_approval ensure_approval_for_elevated_request check_approval read_approval
copy_ensure-check request w = ground arith

module _ (env : Env) (handler : Handler) (key : RuntimeKey) (request : BridgeRequest)
    (h : is_remote (get_field request.payload (codes "localOnly")) ≡ false) where
  -- What stands behind the check of the approval in both.
  abbrev carry_out : ℕ → M (Receipt × Option Fields)
  carry_out started_at = do
    result ← handler request
    record_outcome env (consume_grant env) key request started_at result

  abbrev approve_in_bridge : M (Unit {0})
  approve_in_bridge = do
    approval ← read_approval request.grant.unsigned.run_id request.grant.unsigned.step_id
    ensure_approval_for_elevated_request request.grant.unsigned approval

  after_grant :
      (started_at : ℕ) (v : World)
      → (copy_ensure_approval request >>= λ _. carry_out started_at) v
        ≡ (do
          ensure_local_transport request
          approval ← read_approval request.grant.unsigned.run_id request.grant.unsigned.step_id
          ensure_approval_for_elevated_request request.grant.unsigned approval
          carry_out started_at)
            v
  unfolding ensure_local_transport ensure read_approval
  after_grant started_at v =
      ap (λ (p : Result (Unit {0}) × World). and_then p.0 (λ _. carry_out started_at) p.1)
        (copy_ensure-check request v)
      ∙ rw h refl

  copy_execute-in_runtime :
      (policy : PolicyArtifact) (w : World)
      → copy_execute env handler policy key request w
        ≡ execute_in_runtime env handler policy key request w
  unfolding copy_execute record_outcome
  copy_execute-in_runtime policy w = λ i.
      (do
        started_at ← now_iso env
        verify_grant_for_request env policy key request
        (λ v. after_grant started_at v i))
        w

-- Two programs that agree where grant records stand under their own ids.
abbrev Agree : {A : Type 0} → M A → M A → Type 0
Agree m n = (v : World) → IsKeyed v.ledger → m v ≡ n v

abbrev KeepsGrants : {A : Type 0} → M A → Type 0
KeepsGrants m = (v : World) → (m v).1.ledger.grants ≡ v.ledger.grants

Agree-bind :
    {A B : Type 0} (m : M A) (f g : A → M B)
    → KeepsGrants m
    → ((a : A) → Agree (f a) (g a))
    → Agree (m >>= f) (m >>= g)
Agree-bind {A} {B} m f g k agree v h =
    go (m v).0 (m v).1 λ run id rec e. h run id rec (ap (λ t. lookup t (run, id)) (sym (k v)) ∙ e)
  where
    go : (r : Result A) (u : World) → IsKeyed u.ledger → and_then r f u ≡ and_then r g u
    go (ok a) u t = agree a u t
    go (err e) u t = refl

consume-Agree :
    (env : Env) (run_id grant_id receipt_id : Str)
    → Agree
        (server_consume_grant env ledger_store run_id grant_id receipt_id)
        (consume_grant env run_id grant_id receipt_id)
unfolding server_consume_grant consume_grant read_grant write_grant now_iso
consume-Agree env run_id grant_id receipt_id v h =
    elim (Option-cases (lookup v.ledger.grants (run_id, grant_id))) [
      | inl e ↦ rw e refl
      | inr (rec, e) ↦ rw e (rw (h run_id grant_id rec e) refl)
    ]

module _ (env : Env) (handler : Handler) (policy : PolicyArtifact) (key : RuntimeKey)
    (request : BridgeRequest) (quiet : Quiet (handler request)) where
  ensure-KeepsGrants : (test : Bool) (e : Failure) → KeepsGrants (ensure test e)
  unfolding ensure
  ensure-KeepsGrants true e v = refl
  ensure-KeepsGrants false e v = refl

  verify-KeepsGrants : KeepsGrants (verify_grant_for_request env policy key request)
  unfolding verify_grant_for_request ensure read_grant now_iso
  verify-KeepsGrants v = ground arith

  approval-KeepsGrants :
      (a : Option ApprovalBinding)
      → KeepsGrants (ensure_approval_for_elevated_request request.grant.unsigned a)
  unfolding ensure_approval_for_elevated_request check_approval check_binding ensure
  approval-KeepsGrants a v = ground arith

  clock-KeepsGrants : KeepsGrants (now_iso env)
  unfolding now_iso
  clock-KeepsGrants v = refl

  local-KeepsGrants : KeepsGrants (ensure_local_transport request)
  unfolding ensure_local_transport ensure
  local-KeepsGrants v = ground arith

  read-KeepsGrants :
      KeepsGrants (read_approval request.grant.unsigned.run_id request.grant.unsigned.step_id)
  unfolding read_approval
  read-KeepsGrants v = refl

  emit-KeepsGrants :
      (result : BridgeExecutionResult) (at : ℕ)
      → KeepsGrants (emit_receipt env request result key at)
  unfolding emit_receipt random_hex now_iso
  emit-KeepsGrants result at v = refl

  write-KeepsGrants : (r : Receipt) → KeepsGrants (write_receipt r)
  unfolding write_receipt
  write-KeepsGrants r v = refl

  server_execute-in_runtime :
      (w : World)
      → IsKeyed w.ledger
      → server_execute env ledger_store handler policy key request w
        ≡ execute_in_runtime env handler policy key request w
  unfolding server_execute record_outcome server_verify_grant verify_grant_for_request
      server_verify_object verify_object server_sign_object sign_object server_emit_receipt
      emit_receipt receipt_at server_write_receipt write_receipt
  server_execute-in_runtime w h =
      Agree-bind (now_iso env) _ _ clock-KeepsGrants
        (λ at.
          Agree-bind (verify_grant_for_request env policy key request) _ _ verify-KeepsGrants λ _.
            Agree-bind (ensure_local_transport request) _ _ local-KeepsGrants λ _.
              Agree-bind
                (read_approval request.grant.unsigned.run_id request.grant.unsigned.step_id) _ _
                read-KeepsGrants
                λ a.
                  Agree-bind (ensure_approval_for_elevated_request request.grant.unsigned a) _ _
                    (approval-KeepsGrants a)
                    λ _.
                      Agree-bind (handler request) _ _ (λ v. ap (λ l. l.grants) (quiet v))
                        λ result.
                          Agree-bind (emit_receipt env request result key at) _ _
                            (emit-KeepsGrants result at)
                            λ receipt.
                              Agree-bind (write_receipt receipt) _ _ (write-KeepsGrants receipt)
                                λ _ v keyed.
                                  ap
                                    (λ (p : Result (Unit {0}) × World).
                                      and_then p.0 (λ _. pure (receipt, result.output)) p.1)
                                    (consume-Agree env receipt.unsigned.run_id
                                      receipt.unsigned.grant_id receipt.unsigned.receipt_id v
                                      keyed))
        w h

  server_execute-dispatched :
      (w : World)
      → server_execute env ledger_store handler policy key request w
        ≡ execute_elevated env handler policy key request w
  unfolding server_execute execute_elevated record_outcome server_verify_grant
      verify_grant_for_request server_verify_object verify_object server_sign_object sign_object
      server_emit_receipt emit_receipt receipt_at server_write_receipt write_receipt
      server_consume_grant consume_grant_file
  server_execute-dispatched w = refl

  -- In a ledger whose grant records stand under their own ids, and for every handler that leaves the
  -- ledger alone: the bridge of packages/elevated, given the runtime's ledger as its store, and the
  -- bridge that the dispatcher is modelled with return or throw the same and write the same, and so
  -- do the same steps with the runtime's own `consumeGrant`.
  pub server_execute-Agree :
      (w : World)
      → IsKeyed w.ledger
      → (server_execute env ledger_store handler policy key request w
          ≡ execute_elevated env handler policy key request w)
        × (server_execute env ledger_store handler policy key request w
            ≡ execute_in_runtime env handler policy key request w)
  server_execute-Agree w h = (server_execute-dispatched w, server_execute-in_runtime w h)

  -- In a ledger whose grant records stand under their own ids, the copy of the bridge under
  -- packages/runtime agrees with the bridge that the dispatcher uses on every request that is not
  -- marked as remote, in what it returns or throws and in what it writes, for every handler that
  -- leaves the ledger alone.
  pub copy_execute-local :
      (w : World)
      → is_remote (get_field request.payload (codes "localOnly")) ≡ false
      → IsKeyed w.ledger
      → copy_execute env handler policy key request w
        ≡ execute_elevated env handler policy key request w
  copy_execute-local w local h =
      copy_execute-in_runtime env handler key request local policy w
      ∙ sym (server_execute-in_runtime w h)
      ∙ server_execute-dispatched w

-- The cell of the copy allows the commands that the cell of packages/elevated allows.
pub copy_run_elevated_cell-commands :
    (env : Env) (vars : Variables)
    → (resolve_config env vars no_overrides).elevated_allowed_commands
      ≡ resolve_elevated_config vars
unfolding resolve_config resolve_elevated_config default_config
copy_run_elevated_cell-commands env vars = refl
