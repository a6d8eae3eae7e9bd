-- ===== src/Tests/Dispatched.antt =====
-- A grant for the note step of the samples, dispatched once and tried again.
use tool_flow.Prelude.{
  ◌≡◌, ◌≢◌, refl, ◌↔◌, [], ◌∷◌, Str, str_beq, codes, some, none, lookup, put, Key2, key2_beq,
  str_eq, key2_eq, arith,
}
use tool_flow.Types.{
  session, session_note, cell_beq, action_beq, idempotent, Fields, get_field, text, field, end,
  issued, PolicyArtifact, StepGrant, GrantRecord, Receipt, ReceiptStatus, bridge_v1, ok,
}
use tool_flow.Hashing.{hash_json}
use tool_flow.Config.{default_config}
use tool_flow.Crypto.{sign_object, verify_object, from_hex, hex_digit}
use tool_flow.World.{World, now_iso, random_hex}
use tool_flow.Ledger.{read_grant, write_grant, consume_grant, write_receipt}
use tool_flow.Policy.{policy_artifact_at}
use tool_flow.Cells.{run_session_cell, session_note_action, text_or, succeeds}
use tool_flow.Bridge.{
  ensure, bridge_beq, is_expired, verify_grant_for_request, status_of, output_hash_of, receipt_at,
  emit_receipt, record_outcome, execute_same_process, handler_of, request_of, dispatch_step,
}
use tool_flow.Bridge.Verify.{IsValid, verify_grant_for_request_iff}
use tool_flow.Bridge.Outcome.{IsKeyed}
use tool_flow.Bridge.Dispatch.{IsDispatched, dispatch_step-IsDispatched, dispatch_step-single_use}
use tool_flow.Types.{StepState, StepManifest}
use tool_flow.Ledger.{void_grant, expire_grant, try_read_receipt}
use tool_flow.Run.Recovery.{
  Recovered, requeued, recover_entry, recover_interrupted, recover_with_grant, recover_granted,
  close_grant, clear_step_for_replay, is_settled,
}
use tool_flow.Run.Closed.{IsUnusable, recover_entry-Closes}
use tool_flow.Tests.Samples.{constant_env, test_key, two_step_graph, note_node, no_ledger, world_of}

abbrev pub policy : PolicyArtifact
policy = policy_artifact_at constant_env two_step_graph default_config 0

abbrev pub note_grant : StepGrant
note_grant = record {
  unsigned = record {
    grant_id = codes "sg_t";
    run_id = codes "r";
    step_id = codes "b";
    cell_id = session;
    bridge_id = bridge_v1 session;
    action = session_note;
    payload_hash = codes "d1";
    policy_hash = codes "d1";
    approval_hash = none;
    replay_class = idempotent;
    issued_at = 0;
    expires_at = 300;
    nonce = codes "t";
    key_id = codes "k";
  };
  signature = codes "ab";
}

abbrev pub granted : World
granted = world_of record no_ledger {
  grants =
      (
        (codes "r", codes "sg_t"),
        record { grant = note_grant; state = issued; consumed_at = none; receipt_id = none },
      )
      ∷ [];
}

abbrev note_output : Fields
note_output = field (codes "mode") (text (codes "local_session_note")) (
    field (codes "prompt") (text (codes "hi"))
      (field (codes "response") (text (codes "MVP session note recorded: hi")) end))

abbrev note_receipt : Receipt
note_receipt = record {
  unsigned = record {
    receipt_id = codes "rcpt_t";
    grant_id = codes "sg_t";
    run_id = codes "r";
    step_id = codes "b";
    bridge_id = bridge_v1 session;
    payload_hash = codes "d1";
    policy_hash = codes "d1";
    status = ReceiptStatus.succeeded;
    started_at = 0;
    ended_at = 2;
    output_hash = some (codes "d1");
    error = none;
    key_id = codes "k";
  };
  signature = codes "ab";
}

pub single-IsKeyed :
    (run' id' run id : Str) (entry rec : GrantRecord)
    → lookup {K = Key2} (((run', id'), entry) ∷ []) (run, id) ≡ some rec
    → entry.grant.unsigned.grant_id ≡ id'
    → rec.grant.unsigned.grant_id ≡ id
unfolding lookup key2_beq
single-IsKeyed run' id' run id entry rec h e = ground (arith, str_eq.beq_iff id' id)

granted-IsKeyed : IsKeyed granted.ledger
granted-IsKeyed run id rec h =
    single-IsKeyed (codes "r") (codes "sg_t") run id
      record { grant = note_grant; state = issued; consumed_at = none; receipt_id = none } rec h
      refl

dispatches :
    (dispatch_step constant_env [] policy test_key note_node note_grant granted).0
    ≡ ok (note_receipt, some note_output)
unfolding dispatch_step request_of handler_of execute_same_process verify_grant_for_request ensure
    verify_object sign_object from_hex hex_digit str_beq bridge_beq cell_beq action_beq hash_json
    policy_artifact_at read_grant lookup key2_beq run_session_cell session_note_action get_field
    text_or succeeds record_outcome emit_receipt receipt_at status_of output_hash_of write_receipt
    consume_grant write_grant put now_iso random_hex is_expired
dispatches = refl

dispatch_step-IsDispatched_example :
    IsDispatched constant_env policy test_key note_node note_grant note_receipt granted
      (dispatch_step constant_env [] policy test_key note_node note_grant granted).1
dispatch_step-IsDispatched_example =
    dispatch_step-IsDispatched constant_env [] policy test_key note_node note_grant granted
      (note_receipt, some note_output) granted-IsKeyed dispatches

dispatch_step-single_use_example :
    (verify_grant_for_request constant_env policy test_key
      (request_of note_node note_grant)
      (dispatch_step constant_env [] policy test_key note_node note_grant granted).1).0
    ≢ ok tt
unfolding request_of
dispatch_step-single_use_example =
    dispatch_step-single_use constant_env [] policy test_key note_node note_grant granted
      (note_receipt, some note_output)
      (dispatch_step constant_env [] policy test_key note_node note_grant granted).1 policy test_key
      (request_of note_node note_grant) granted-IsKeyed dispatches refl refl

verify_grant_for_request_iff_example :
    ((verify_grant_for_request constant_env policy test_key
        (request_of note_node note_grant)
        granted).0
      ≡ ok tt)
    ↔ IsValid constant_env policy test_key (request_of note_node note_grant) granted
verify_grant_for_request_iff_example =
    verify_grant_for_request_iff constant_env policy test_key (request_of note_node note_grant)
      granted

-- The note step, interrupted with its grant unused.
abbrev interrupted_step : StepManifest
interrupted_step = record {
  id = codes "b";
  state = StepState.running;
  grant_id = some (codes "sg_t");
  receipt_id = none;
  started_at = some 0;
  ended_at = none;
  output_path = none;
  error = none;
}

abbrev requeued_step : Recovered
requeued_step = (
  record interrupted_step { state = StepState.pending; grant_id = none; started_at = none },
  requeued,
)

requeues :
    (recover_entry constant_env (codes "r") idempotent interrupted_step granted).0
    ≡ ok requeued_step
unfolding recover_entry recover_interrupted recover_with_grant recover_granted close_grant
    clear_step_for_replay is_settled try_read_receipt read_grant void_grant expire_grant write_grant
    is_expired now_iso lookup put key2_beq str_beq
requeues = refl

recover_entry-Closes_example :
    IsUnusable
      (codes "r")
      (codes "sg_t")
      (recover_entry constant_env (codes "r") idempotent interrupted_step granted).1
unfolding is_settled
recover_entry-Closes_example =
    recover_entry-Closes constant_env (codes "r") idempotent interrupted_step (codes "sg_t") granted
      requeued_step granted-IsKeyed refl refl (λ e. absurd (cc)) requeues refl
