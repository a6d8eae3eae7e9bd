-- ===== src/Tests/Flows.antt =====
-- The controller on a flow with three linked runs.
use tool_flow.Prelude.{
  ◌≡◌, refl, [], ◌∷◌, codes, none, some, lookup, str_beq, key2_eq, key2_beq, inl, Str, ◌==◌, str_eq,
  if◌then◌else◌,
}
use tool_flow.Types.{RunState, undefined, err, ok, missing_file}
use tool_flow.Config.{default_config}
use tool_flow.World.{
  World, MirroredTaskflowState, TaskflowMirrorRecord, ControllerFlowStatus, ControllerLinkedRun,
  ControllerFlowRecord,
}
use tool_flow.Controller.{
  FlowInput, FlowPatch, create_controller_flow, update_controller_flow, reconcile_controller_flow,
}
use tool_flow.Controller.Index.{IsListed}
use tool_flow.Controller.Reached.{here, then_do, create, update, Reached-IsListed}
use tool_flow.Controller.Status.{
  IsReconciled, reconcile_controller_flow-IsReconciled, reconcile_controller_flow-missing,
}
use tool_flow.Tests.Samples.{constant_env, no_ledger, world_of}

abbrev flow_input : FlowInput
flow_input = record {
  goal = codes "g";
  done_definition = codes "d";
  blocker_definition = codes "b";
  controller_id = codes "c";
  current_step = codes "s";
  next_action = codes "n";
  artifacts = none;
}

abbrev blocking : FlowPatch
blocking = record {
  status = some ControllerFlowStatus.blocked;
  current_step = none;
  next_action = none;
  wait_json = none;
  blocked_summary = some (some (codes "x"));
  terminal_summary = none;
}

abbrev created : World
created = (create_controller_flow constant_env default_config flow_input (world_of no_ledger)).1

Reached-IsListed_example :
    IsListed
      (update_controller_flow constant_env default_config
        (codes "tfc_123456789abc")
        blocking
        created).1.ledger
Reached-IsListed_example = Reached-IsListed {start = world_of no_ledger} refl (
    then_do (then_do here (create constant_env default_config flow_input (world_of no_ledger)))
      (update constant_env default_config (codes "tfc_123456789abc") blocking created))

abbrev linked_run : Str → ControllerLinkedRun
linked_run id = record {
  run_id = id;
  workflow_path = codes "w.json";
  purpose = codes "p";
  run_state = RunState.running;
  mirrored_taskflow_state = MirroredTaskflowState.running;
  attached_at = 1;
  updated_at = 1;
}

abbrev mirror_in : Str → RunState → MirroredTaskflowState → TaskflowMirrorRecord
mirror_in id state mirrored = record {
  run_id = id;
  workflow_name = codes "w";
  run_state = state;
  mirrored_taskflow_state = mirrored;
  current_step = none;
  waiting_on = none;
  blocked_summary = none;
  done_summary = none;
  updated_at = 5;
  step_states = [];
}

-- The run "a" failed, any other is done.
abbrev mirror_of : Str → TaskflowMirrorRecord
mirror_of id =
    if id == codes "a"
    then mirror_in id RunState.failed MirroredTaskflowState.blocked
    else mirror_in id RunState.succeeded MirroredTaskflowState.done

abbrev flow : ControllerFlowRecord
flow = record {
  flow_id = codes "f";
  goal = codes "g";
  done_definition = codes "d";
  blocker_definition = codes "b";
  controller_id = codes "c";
  status = ControllerFlowStatus.running;
  current_step = codes "s";
  next_action = codes "n";
  wait_json = undefined;
  blocked_summary = none;
  linked_runs = linked_run (codes "a") ∷ linked_run (codes "b") ∷ [];
  artifacts = [];
  created_at = 1;
  updated_at = 1;
  last_material_progress_at = 1;
  terminal_summary = none;
}

abbrev root : Str
root = default_config.taskflow_mirror_root

abbrev followed : World
followed = world_of (record no_ledger {
  flows = ((root, codes "f"), flow) ∷ [];
  mirrors =
      ((root, codes "a"), mirror_of (codes "a")) ∷ ((root, codes "b"), mirror_of (codes "b")) ∷ [];
})

reconcile_controller_flow-IsReconciled_example :
    (g : ControllerFlowRecord) × ((reconcile_controller_flow constant_env default_config
        (codes "f")
        followed).0
      ≡ ok g)
    × (lookup
          (reconcile_controller_flow constant_env default_config
            (codes "f")
            followed).1.ledger.flows
          (root, g.flow_id)
        ≡ some g)
    × IsReconciled mirror_of flow g
unfolding lookup str_beq key2_beq default_config
reconcile_controller_flow-IsReconciled_example =
    reconcile_controller_flow-IsReconciled constant_env default_config (codes "f") followed flow
      mirror_of refl (refl, (refl, tt))

reconcile_controller_flow-missing_example :
    reconcile_controller_flow constant_env default_config (codes "f") (world_of no_ledger)
    ≡ (err missing_file, world_of no_ledger)
unfolding lookup
reconcile_controller_flow-missing_example =
    reconcile_controller_flow-missing constant_env default_config (codes "f") (world_of no_ledger)
      (inl refl)
