-- ===== src/Tests/Commands.antt =====
-- The elevated cell on a command that it may start.
use tool_flow.Prelude.{
  ◌≡◌, ◌≢◌, refl, List, [], ◌∷◌, Str, str_beq, codes, none, true, contains, str_eq, arith,
}
use tool_flow.Types.{
  elevated, exec_command, review_before_replay, bridge_v1, BridgeRequest, field, end, text, arr,
  cons, nil, get_field, ok,
}
use tool_flow.World.{next_effect}
use tool_flow.Cells.{array_of_strings, strings_of}
use tool_flow.Cells.Elevated.{
  cwd_of, timeout_of, check_command, run_exec_command, run_elevated_cell,
}
use tool_flow.Cells.Allowed.{run_elevated_cell-allowed}
use tool_flow.Tests.Samples.{constant_env, no_ledger, world_of}

abbrev list_request : BridgeRequest
list_request = record {
  bridge_id = bridge_v1 elevated;
  cell_id = elevated;
  action = exec_command;
  payload = field (codes "command") (arr (cons (text (codes "ls")) nil)) end;
  grant = record {
    unsigned = record {
      grant_id = codes "sg_t";
      run_id = codes "r";
      step_id = codes "b";
      cell_id = elevated;
      bridge_id = bridge_v1 elevated;
      action = exec_command;
      payload_hash = codes "d1";
      policy_hash = codes "d1";
      approval_hash = none;
      replay_class = review_before_replay;
      issued_at = 0;
      expires_at = 300;
      nonce = codes "t";
      key_id = codes "k";
    };
    signature = codes "ab";
  };
}

starts :
    (run_elevated_cell constant_env (codes "ls" ∷ []) list_request (world_of no_ledger)).1.effects
    ≢ (world_of no_ledger).effects
unfolding run_elevated_cell run_exec_command next_effect array_of_strings strings_of get_field
    check_command contains str_beq cwd_of timeout_of
starts e = absurd (omega arith)

run_elevated_cell-allowed_example :
    (binary : Str) × (args : List Str) × (array_of_strings
        (get_field list_request.payload (codes "command"))
        (codes "command")
      ≡ ok (binary ∷ args))
    × (contains (codes "ls" ∷ []) binary ≡ true)
run_elevated_cell-allowed_example =
    run_elevated_cell-allowed constant_env (codes "ls" ∷ []) list_request (world_of no_ledger) refl
      starts
