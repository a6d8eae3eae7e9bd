-- ===== src/Controller.antt =====
-- packages/runtime/src/control-plane/taskflow-controller.ts: flows that follow several runs, and the
-- index of the flows.
pub mod Index
pub mod Frame
pub mod Reached
pub mod Status
use tool_flow.Prelude.{
  List, [], ◌∷◌, ◌++◌, Str, codes, Option, none, some, lookup, put, str_eq, key2_eq, ℕ, suc, take,
  drop, last, or_else,
}
use tool_flow.Types.{
  RunState, RunManifest, RawWorkflow, Json, undefined, text, obj, end, field, missing_file,
}
use tool_flow.Env.{Env}
use tool_flow.Config.{RuntimeConfig}
use tool_flow.World.{
  MirroredTaskflowState, WaitingOn, BlockedSummary, step_failed, run_quarantined,
  TaskflowMirrorRecord, ControllerFlowStatus, ControllerLinkedRun, ControllerFlowRecord,
  ControllerFlow, ControllerIndex, M, ◌>>=◌, ◌>>◌, pure, require, read_ledger, change, now_iso,
}
use tool_flow.Upsert.{upsert}
use tool_flow.Mirror.{read_taskflow_mirror, sync_taskflow_mirror_from_ledger, files_under}
use tool_flow.Run.Manifest.{Ctx}
use tool_flow.Run.Operator.{run_workflow}

-- `tfc_${Math.random().toString(16).slice(2, 14)}`
unfoldable pub new_flow_id : Env → M Str
new_flow_id env w =
    (pure (codes "tfc_" ++ take 12 (drop 2 (env.math_random w.draws))))
      (record w { draws = suc w.draws })

-- An index that cannot be read is taken as empty.
unfoldable pub read_index : Env → RuntimeConfig → M ControllerIndex
unfolding now_iso
read_index env config = do
  l ← read_ledger
  elim (lookup l.flow_indexes config.taskflow_mirror_root) [
    | some index ↦ pure index
    | none ↦ do now ← now_iso env; pure (record { updated_at = now; flows = [] })
  ]

unfoldable pub index_entry : ControllerFlowRecord → ControllerFlow
index_entry f = record {
  flow_id = f.flow_id;
  goal = f.goal;
  status = f.status;
  current_step = f.current_step;
  updated_at = f.updated_at;
}

unfoldable pub upsert_index : Env → RuntimeConfig → ControllerFlowRecord → M (Unit {0})
unfolding read_index
upsert_index env config f = do
  index ← read_index env config
  let flows = upsert ControllerFlow.flow_id ControllerFlow.updated_at index.flows (index_entry f)
  let index : ControllerIndex = record { updated_at = f.updated_at; flows = flows }
  change λ l. record l { flow_indexes = put l.flow_indexes config.taskflow_mirror_root index }

unfoldable pub save_flow : Env → RuntimeConfig → ControllerFlowRecord → M ControllerFlowRecord
save_flow env config f = do
  change λ l. record l { flows = put l.flows (config.taskflow_mirror_root, f.flow_id) f }
  upsert_index env config f
  pure f

pub record FlowInput : Type 0 where
  pub goal : Str
  pub done_definition : Str
  pub blocker_definition : Str
  pub controller_id : Str
  pub current_step : Str
  pub next_action : Str
  pub artifacts : Option (List Str)

unfoldable pub create_controller_flow : Env → RuntimeConfig → FlowInput → M ControllerFlowRecord
unfolding now_iso new_flow_id
create_controller_flow env config input = do
  timestamp ← now_iso env
  flow_id ← new_flow_id env
  save_flow env config (record {
    flow_id = flow_id;
    goal = input.goal;
    done_definition = input.done_definition;
    blocker_definition = input.blocker_definition;
    controller_id = input.controller_id;
    status = ControllerFlowStatus.running;
    current_step = input.current_step;
    next_action = input.next_action;
    wait_json = undefined;
    blocked_summary = none;
    linked_runs = [];
    artifacts = or_else input.artifacts [];
    created_at = timestamp;
    updated_at = timestamp;
    last_material_progress_at = timestamp;
    terminal_summary = none;
  })

unfoldable pub read_controller_flow : RuntimeConfig → Str → M ControllerFlowRecord
read_controller_flow config flow_id = do
  l ← read_ledger
  require missing_file (lookup l.flows (config.taskflow_mirror_root, flow_id))

unfoldable pub list_controller_flows : Env → RuntimeConfig → M ControllerIndex
list_controller_flows env config = read_index env config

unfoldable pub next_action_after_launch : RunManifest → Str
next_action_after_launch m = elim m.state [
  | RunState.succeeded ↦
      codes "Review linked ToolFlow run "
      ++ m.run_id
      ++ codes " and decide the next orchestration step."
  | _ ↦ codes "Monitor linked ToolFlow run " ++ m.run_id ++ codes "."
]

-- `raw` is the workflow that the file at the path holds.
unfoldable pub launch_controller_workflow :
    Ctx → Str → (path purpose : Str) → RawWorkflow → M ControllerFlowRecord
unfolding now_iso next_action_after_launch
launch_controller_workflow ctx flow_id path purpose raw = do
  f ← read_controller_flow ctx.config flow_id
  m ← run_workflow ctx raw
  mirror ← sync_taskflow_mirror_from_ledger ctx.env ctx.config m.run_id
  attached_at ← now_iso ctx.env
  let linked : ControllerLinkedRun = record {
    run_id = m.run_id;
    workflow_path = path;
    purpose = purpose;
    run_state = m.state;
    mirrored_taskflow_state = mirror.mirrored_taskflow_state;
    attached_at = attached_at;
    updated_at = m.updated_at;
  }
  now ← now_iso ctx.env
  save_flow ctx.env ctx.config (record f {
    linked_runs = f.linked_runs ++ linked ∷ [];
    current_step = codes "toolflow:" ++ m.workflow_name;
    next_action = next_action_after_launch m;
    updated_at = now;
    last_material_progress_at = now;
  })

unfoldable pub waiting_reason : WaitingOn → Str
waiting_reason on = codes "ToolFlow step " ++ on.step_id ++ codes " requires approval."

-- `mirror.waitingOn` as the value that the flow keeps
unfoldable pub waiting_json : Option WaitingOn → Json
unfolding waiting_reason
waiting_json none = undefined
waiting_json (some on) = obj (
    field (codes "kind") (text (codes "approval")) (
      field (codes "stepId") (text on.step_id)
        (field (codes "reason") (text (waiting_reason on)) end)))

unfoldable pub blocked_text : BlockedSummary → Str
blocked_text (step_failed id) = codes "ToolFlow step " ++ id ++ codes " failed."
blocked_text (run_quarantined id) = codes "Run " ++ id ++ codes " is quarantined."

unfoldable pub wait_action : Str → Option WaitingOn → Str
unfolding waiting_reason
wait_action run_id none = codes "Await approval or wake for run " ++ run_id ++ codes "."
wait_action run_id (some on) = waiting_reason on

unfoldable pub block_summary : Str → Option BlockedSummary → Str
unfolding blocked_text
block_summary run_id none = codes "Linked run " ++ run_id ++ codes " is blocked."
block_summary run_id (some b) = blocked_text b

-- What the mirror of one linked run changes in the flow.
unfoldable pub follow_mirror :
    Str → TaskflowMirrorRecord → ControllerFlowRecord → ControllerFlowRecord
unfolding waiting_json wait_action block_summary
follow_mirror run_id mirror f = elim mirror.mirrored_taskflow_state [
  | MirroredTaskflowState.waiting ↦ record f {
    status = ControllerFlowStatus.waiting;
    current_step = or_else mirror.current_step f.current_step;
    next_action = wait_action run_id mirror.waiting_on;
    wait_json = waiting_json mirror.waiting_on;
  }
  | MirroredTaskflowState.blocked ↦ record f {
    status = ControllerFlowStatus.blocked;
    current_step = or_else mirror.current_step f.current_step;
    next_action = codes "Review blocked ToolFlow run " ++ run_id ++ codes ".";
    blocked_summary = some (block_summary run_id mirror.blocked_summary);
  }
  | MirroredTaskflowState.done ↦ record f {
    status = ControllerFlowStatus.running;
    next_action =
        codes "Linked run "
        ++ run_id
        ++ codes " finished. Evaluate completion or schedule the next workflow.";
    wait_json = undefined;
  }
  | MirroredTaskflowState.cancelled ↦ record f {
    status = ControllerFlowStatus.cancelled;
    terminal_summary = some (codes "Linked run " ++ run_id ++ codes " was cancelled.");
  }
  | MirroredTaskflowState.running ↦ f
]

unfoldable pub refresh_linked : TaskflowMirrorRecord → ControllerLinkedRun → ControllerLinkedRun
refresh_linked mirror linked = record linked {
  run_state = mirror.run_state;
  mirrored_taskflow_state = mirror.mirrored_taskflow_state;
  updated_at = mirror.updated_at;
}

-- `for (const linked of flow.linkedRuns) { ... }`, with the refreshed runs put back in order.
unfoldable pub follow_runs :
    RuntimeConfig
    → List ControllerLinkedRun
    → ControllerFlowRecord
    → M (ControllerFlowRecord × List ControllerLinkedRun)
follow_runs config [] f = pure (f, [])
follow_runs config (linked ∷ rest) f = do
  mirror ← read_taskflow_mirror config linked.run_id
  (f, refreshed) ← follow_runs config rest (follow_mirror linked.run_id mirror f)
  pure (f, refresh_linked mirror linked ∷ refreshed)

unfoldable pub reconcile_controller_flow : Env → RuntimeConfig → Str → M ControllerFlowRecord
unfolding now_iso
reconcile_controller_flow env config flow_id = do
  f ← read_controller_flow config flow_id
  (f, linked) ← follow_runs config f.linked_runs f
  now ← now_iso env
  save_flow env config (record f { linked_runs = linked; updated_at = now })

-- The fields that the patch names; a field with the value `undefined` is named too.
pub record FlowPatch : Type 0 where
  pub status : Option ControllerFlowStatus
  pub current_step : Option Str
  pub next_action : Option Str
  pub wait_json : Option Json
  pub blocked_summary : Option (Option Str)
  pub terminal_summary : Option (Option Str)

-- `Object.assign(flow, patch)`
unfoldable pub apply_patch : FlowPatch → ControllerFlowRecord → ControllerFlowRecord
apply_patch p f = record f {
  status = or_else p.status f.status;
  current_step = or_else p.current_step f.current_step;
  next_action = or_else p.next_action f.next_action;
  wait_json = or_else p.wait_json f.wait_json;
  blocked_summary = or_else p.blocked_summary f.blocked_summary;
  terminal_summary = or_else p.terminal_summary f.terminal_summary;
}

unfoldable pub update_controller_flow :
    Env → RuntimeConfig → Str → FlowPatch → M ControllerFlowRecord
unfolding now_iso apply_patch
update_controller_flow env config flow_id patch = do
  f ← read_controller_flow config flow_id
  now ← now_iso env
  save_flow env config
      (record (apply_patch patch f) { updated_at = now; last_material_progress_at = now })

pub record ControllerStatus : Type 0 where
  pub root : Str
  pub flow_count : ℕ
  pub latest_flow : Option ControllerFlow
  pub updated_at : ℕ

unfoldable pub controller_status : Env → RuntimeConfig → M ControllerStatus
unfolding files_under
controller_status env config = do
  index ← read_index env config
  l ← read_ledger
  pure (record {
    root = env.join config.taskflow_mirror_root (codes "controller");
    flow_count = files_under config.taskflow_mirror_root l.flows;
    latest_flow = last index.flows;
    updated_at = index.updated_at;
  })
