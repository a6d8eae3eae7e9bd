-- ===== src/Tests/Lanes.antt =====
-- The bridges of the elevated lane on a request with an approval.
use tool_flow.Prelude.{◌≡◌, refl, [], ◌∷◌, str_beq, codes, some, none, str_eq}
use tool_flow.Types.{
  session, issued, get_field, ApprovalBinding, StepGrant, GrantRecord, BridgeRequest,
}
use tool_flow.World.{World}
use tool_flow.Bridge.{is_remote, Handler, execute_elevated, handler_of, request_of}
use tool_flow.Bridge.Outcome.{IsKeyed, handler_of-Quiet}
use tool_flow.Elevated.{server_execute, copy_execute}
use tool_flow.Elevated.Agreement.{
  ledger_store, execute_in_runtime, copy_execute-local, server_execute-Agree,
}
use tool_flow.Tests.Samples.{constant_env, test_key, note_node, no_ledger, world_of}
use tool_flow.Tests.Dispatched.{policy, note_grant, single-IsKeyed}

abbrev approved_grant : StepGrant
approved_grant = record note_grant {
  unsigned = record note_grant.unsigned { approval_hash = some (codes "h") };
}

abbrev approval : ApprovalBinding
approval = record {
  run_id = codes "r";
  step_id = codes "b";
  approval_hash = codes "h";
  approved_payload_hash = codes "d1";
  policy_hash = codes "d1";
  approved_at = 0;
  approved_by = codes "me";
}

abbrev approved_record : GrantRecord
approved_record = record {
  grant = approved_grant;
  state = issued;
  consumed_at = none;
  receipt_id = none;
}

abbrev approved : World
approved = world_of record no_ledger {
  grants = ((codes "r", codes "sg_t"), approved_record) ∷ [];
  approvals = ((codes "r", codes "b"), approval) ∷ [];
}

abbrev request : BridgeRequest
request = request_of note_node approved_grant

abbrev handler : Handler
handler = handler_of constant_env [] session

approved-IsKeyed : IsKeyed approved.ledger
approved-IsKeyed run id rec h =
    single-IsKeyed (codes "r") (codes "sg_t") run id approved_record rec h refl

copy_execute-local_example :
    copy_execute constant_env handler policy test_key request approved
    ≡ execute_elevated constant_env handler policy test_key request approved
unfolding request_of get_field str_beq is_remote
copy_execute-local_example =
    copy_execute-local constant_env handler policy test_key request
      (handler_of-Quiet constant_env [] session request) approved refl approved-IsKeyed

server_execute-Agree_example :
    (server_execute constant_env ledger_store handler policy test_key request approved
      ≡ execute_elevated constant_env handler policy test_key request approved)
    × (server_execute constant_env ledger_store handler policy test_key request approved
        ≡ execute_in_runtime constant_env handler policy test_key request approved)
server_execute-Agree_example =
    server_execute-Agree constant_env handler policy test_key request
      (handler_of-Quiet constant_env [] session request) approved approved-IsKeyed
