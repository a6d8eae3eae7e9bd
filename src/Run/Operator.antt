-- ===== src/Run/Operator.antt =====
-- The commands of run-service.ts on a run that exists: resume, approve, cancel; and
-- approval-service.ts.
use tool_flow.Prelude.{
  suc, Bool, true, false, List, [], ◌∷◌, Str, codes, Option, none, some, lookup, str_eq, ◌==◌,
  length, if◌then◌else◌,
}
use tool_flow.Types.{
  RunState, StepState, StepManifest, RunManifest, CompiledStep, ApprovalBinding, Json, text, obj,
  end, field, is_elevated, RawWorkflow, missing_file, missing_entry, run_quarantined, out_of_fuel,
  unknown_step, not_elevated,
}
use tool_flow.Env.{Env}
use tool_flow.Hashing.{hash_json}
use tool_flow.World.{
  run_approved, run_cancelled, M, ◌>>=◌, ◌>>◌, pure, throw, require, read_ledger, now_iso,
}
use tool_flow.Ledger.{open_store, write_approval, read_manifest, append_event}
use tool_flow.Run.Manifest.{Ctx, Steps, update_step}
use tool_flow.Run.Loop.{persist_manifest, prepare_run, run_rounds, set_state, set_step_state}
use tool_flow.Run.Recovery.{recover_run}

abbrev pub is_run_running : RunState → Bool
is_run_running RunState.running = true
is_run_running _ = false

-- The manifest that `resumeWorkflow` works on: a run that was interrupted is recovered first.
unfoldable pub load_for_resume : Ctx → Str → M RunManifest
load_for_resume ctx run_id = do
  m ← read_manifest run_id
  if is_run_running m.state then recovered m else pure m
  where
    recovered : RunManifest → M RunManifest
    recovered m = do _ ← recover_run ctx m.run_id; read_manifest m.run_id

-- One round for each node of the graph and one more.
unfoldable pub drive : Ctx → RunManifest → M RunManifest
unfolding set_state
drive ctx m = do
  l ← read_ledger
  graph ← require missing_file (lookup l.graphs m.run_id)
  policy ← require missing_file (lookup l.policies m.run_id)
  m ← persist_manifest ctx (set_state RunState.running m)
  result ← run_rounds ctx graph policy m.run_id (suc (length graph.nodes)) m
  require out_of_fuel result

unfoldable pub resume_workflow : Ctx → Str → M RunManifest
resume_workflow ctx run_id = do
  open_store ctx.env ctx.config.ledger_root
  m ← load_for_resume ctx run_id
  elim m.state [
    | RunState.quarantined ↦ throw run_quarantined
    | RunState.cancelled ↦ pure m
    | RunState.rejected ↦ pure m
    | _ ↦ drive ctx m
  ]

unfoldable pub run_workflow : Ctx → RawWorkflow → M RunManifest
run_workflow ctx raw = do m ← prepare_run ctx raw; resume_workflow ctx m.run_id

unfoldable pub approval_json : Env → ApprovalBinding → Json
approval_json env a = obj (
    field (codes "runId") (text a.run_id) (
      field (codes "stepId") (text a.step_id) (
        field (codes "approvedPayloadHash") (text a.approved_payload_hash) (
          field (codes "policyHash") (text a.policy_hash) (
            field (codes "approvedAt") (text (env.iso a.approved_at)) (
              field (codes "approvedBy") (text a.approved_by)
                (field (codes "approvalMode") (text (codes "step-time")) end)))))))

unfoldable pub approve_step : Env → Str → CompiledStep → Str → Str → M ApprovalBinding
unfolding now_iso
approve_step env run_id step policy_hash approved_by = do
  now ← now_iso env
  let a : ApprovalBinding = record {
    run_id = run_id;
    step_id = step.id;
    approval_hash = [];
    approved_payload_hash = step.payload_hash;
    policy_hash = policy_hash;
    approved_at = now;
    approved_by = approved_by;
  }
  let approval = record a { approval_hash = hash_json env (approval_json env a) }
  write_approval approval
  pure approval

-- `graph.nodes.find((node) => node.id === stepId)`
unfoldable pub find_node : List CompiledStep → Str → Option CompiledStep
find_node [] id = none
find_node (n ∷ ns) id = if n.id == id then some n else find_node ns id

-- `if (manifest.state === "awaiting_approval") manifest.state = "ready"`
unfoldable pub ready_after_approval : RunState → RunState
ready_after_approval RunState.awaiting_approval = RunState.ready
ready_after_approval s = s

unfoldable pub approve_run_step : Ctx → Str → Str → Str → M RunManifest
unfolding find_node update_step ready_after_approval
approve_run_step ctx run_id step_id approved_by = do
  open_store ctx.env ctx.config.ledger_root
  m ← read_manifest run_id
  l ← read_ledger
  graph ← require missing_file (lookup l.graphs m.run_id)
  policy ← require missing_file (lookup l.policies m.run_id)
  step ← require (unknown_step step_id) (find_node graph.nodes step_id)
  _ ← if is_elevated step.cell then pure tt else throw (not_elevated step_id)
  _ ← approve_step ctx.env m.run_id step policy.policy_hash approved_by
  _ ← require (missing_entry step_id) (lookup m.steps step_id)
  let m = update_step m step_id (set_step_state StepState.pending)
  m ← persist_manifest ctx (record m { state = ready_after_approval m.state })
  append_event ctx.env m.run_id (run_approved step_id approved_by)
  pure m

-- `["succeeded", "failed", "rejected", "cancelled"].includes(manifest.state)`
unfoldable pub is_terminal : RunState → Bool
is_terminal RunState.succeeded = true
is_terminal RunState.failed = true
is_terminal RunState.rejected = true
is_terminal RunState.cancelled = true
is_terminal _ = false

-- `["pending", "awaiting_approval", "grant_issued", "running"].includes(step.state)`
unfoldable pub is_cancellable : StepState → Bool
is_cancellable StepState.pending = true
is_cancellable StepState.awaiting_approval = true
is_cancellable StepState.grant_issued = true
is_cancellable StepState.running = true
is_cancellable _ = false

unfoldable pub cancel_step : Str → StepManifest → StepManifest
unfolding is_cancellable
cancel_step reason s =
    if is_cancellable s.state
    then record s { state = StepState.cancelled; error = some reason }
    else s

unfoldable pub cancel_steps : Str → Steps → Steps
unfolding cancel_step
cancel_steps reason [] = []
cancel_steps reason ((id, s) ∷ t) = (id, cancel_step reason s) ∷ cancel_steps reason t

unfoldable pub cancel_manifest : Str → RunManifest → RunManifest
unfolding cancel_steps
cancel_manifest reason m = record m {
  state = RunState.cancelled;
  steps = cancel_steps reason m.steps;
}

unfoldable pub cancel_run : Ctx → Str → Str → M RunManifest
unfolding is_terminal
cancel_run ctx run_id reason = do
  open_store ctx.env ctx.config.ledger_root
  m ← read_manifest run_id
  if is_terminal m.state then pure m else cancelled m
  where
    cancelled : RunManifest → M RunManifest
    cancelled m = do
      m ← persist_manifest ctx (cancel_manifest reason m)
      append_event ctx.env m.run_id (run_cancelled reason)
      pure m
