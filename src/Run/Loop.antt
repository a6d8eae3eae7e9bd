-- ===== src/Run/Loop.antt =====
-- `prepareRun` and `resumeWorkflow` of run-service.ts.
use tool_flow.Prelude.{
  ℕ, zero, suc, not, ◌&&◌, List, [], ◌∷◌, ◌++◌, Str, codes, Option, none, some, put, str_eq,
  key2_eq, is_some, if◌then◌else◌,
}
use tool_flow.Types.{
  RunState, StepState, ReceiptStatus, PreflightDecision, StepManifest, RunManifest, RawWorkflow,
  CompiledStep, CompiledGraph, PolicyArtifact, ApprovalBinding, Receipt, Fields, is_elevated,
  is_awaiting, is_succeeded,
}
use tool_flow.World.{
  run_prepared, approval_required, step_receipted, run_completed, StepOutput, M, ◌>>=◌, ◌>>◌, pure,
  from_result, change, now_iso, random_hex,
}
use tool_flow.Ledger.{open_store, read_approval, write_manifest, append_event}
use tool_flow.Mirror.{sync_taskflow_mirror}
use tool_flow.Crypto.{RuntimeKey}
use tool_flow.Bridge.{dispatch_step, mint_step_grant}
use tool_flow.Compiler.Graph.{compile_workflow}
use tool_flow.Classifier.{build_proof_bundle}
use tool_flow.Policy.{compile_policy_artifact}
use tool_flow.Run.Manifest.{
  Ctx, Steps, next_runnable_steps, update_step, reconcile_receipt, some_step, every_step,
}

-- `persistManifest`; the manifest comes back with its new `updatedAt`.
unfoldable pub persist_manifest : Ctx → RunManifest → M RunManifest
persist_manifest ctx m = do
  m ← write_manifest ctx.env m
  _ ← sync_taskflow_mirror ctx.env ctx.config m
  pure m

unfoldable pub pending_step : Str → StepManifest
pending_step id = record {
  id = id;
  state = StepState.pending;
  grant_id = none;
  receipt_id = none;
  started_at = none;
  ended_at = none;
  output_path = none;
  error = none;
}

-- `Object.fromEntries(nodes.map((node) => [node.id, { id: node.id, state: "pending" }]))`
unfoldable pub initial_steps : List CompiledStep → Steps → Steps
unfolding pending_step
initial_steps [] steps = steps
initial_steps (n ∷ ns) steps = initial_steps ns (put steps n.id (pending_step n.id))

unfoldable pub initial_state : PreflightDecision → RunState
initial_state PreflightDecision.reject = RunState.rejected
initial_state _ = RunState.ready

unfoldable pub prepare_run : Ctx → RawWorkflow → M RunManifest
unfolding random_hex now_iso initial_state
prepare_run ctx raw = do
  open_store ctx.env ctx.config.ledger_root
  (source, graph) ← from_result (compile_workflow ctx.env raw)
  proof ← build_proof_bundle ctx.env graph ctx.config
  policy ← compile_policy_artifact ctx.env graph ctx.config
  token ← random_hex ctx.env
  created_at ← now_iso ctx.env
  let run_id = codes "run_" ++ token
  let m : RunManifest = record {
    run_id = run_id;
    workflow_name = source.name;
    state = initial_state proof.decision;
    created_at = created_at;
    updated_at = created_at;
    workflow_hash = graph.source_hash;
    graph_hash = graph.graph_hash;
    proof_hash = proof.proof_hash;
    policy_hash = policy.policy_hash;
    steps = initial_steps graph.nodes [];
  }
  change λ l. record l {
    workflows = put l.workflows run_id source;
    graphs = put l.graphs run_id graph;
    proofs = put l.proofs run_id proof;
    policies = put l.policies run_id policy;
  }
  m ← persist_manifest ctx m
  append_event ctx.env run_id (run_prepared proof.decision)
  pure m

-- What one step of the loop leads to: the next one, or `return manifest`.
pub data Flow : Type 0 where
  next stop : RunManifest → Flow

unfoldable pub set_state : RunState → RunManifest → RunManifest
set_state s m = record m { state = s }

abbrev pub set_step_state : StepState → StepManifest → StepManifest
set_step_state st s = record s { state = st }

unfoldable pub await_approval : Ctx → PolicyArtifact → Str → CompiledStep → RunManifest → M Flow
unfolding set_state update_step
await_approval ctx policy run_id step m = do
  m ← persist_manifest ctx (
      update_step (set_state RunState.awaiting_approval m) step.id
        (set_step_state StepState.awaiting_approval))
  append_event ctx.env run_id (approval_required step.id step.payload_hash policy.policy_hash)
  pure (stop m)

unfoldable pub key_for : Ctx → CompiledStep → RuntimeKey
key_for ctx step = if is_elevated step.cell then ctx.elevated_key else ctx.ordinary_key

-- From the receipt of a step on.
unfoldable pub settle_step :
    Ctx → Str → CompiledStep → Receipt → Option Fields → RunManifest → M Flow
unfolding update_step set_state
settle_step ctx run_id step receipt output m = do
  let out : StepOutput = record {
    receipt_id = receipt.unsigned.receipt_id;
    step_id = step.id;
    status = receipt.unsigned.status;
    output = output;
  }
  change (λ l. record l { artifacts = put l.artifacts (run_id, step.id) out })
  let m =
      reconcile_receipt
        (update_step m step.id
          λ s. record s { output_path = some (ctx.env.artifact_path run_id step.id) })
        receipt
  append_event ctx.env run_id
      (step_receipted step.id receipt.unsigned.receipt_id receipt.unsigned.status)
  elim receipt.unsigned.status [
    | ReceiptStatus.failed ↦ do
      m ← persist_manifest ctx (set_state RunState.failed m)
      pure (stop m)
    | ReceiptStatus.succeeded ↦ do m ← persist_manifest ctx m; pure (next m)
  ]

abbrev pub approval_hash_of : Option ApprovalBinding → Option Str
approval_hash_of none = none
approval_hash_of (some a) = some a.approval_hash

unfoldable pub perform_step :
    Ctx → PolicyArtifact → Str → CompiledStep → Option ApprovalBinding → RunManifest → M Flow
unfolding update_step key_for now_iso
perform_step ctx policy run_id step approval m = do
  let m = update_step m step.id (set_step_state StepState.grant_issued)
  let key = key_for ctx step
  grant ←
      mint_step_grant ctx.env key run_id step policy ctx.config.grant_ttl_seconds
        (approval_hash_of approval)
  now ← now_iso ctx.env
  m ← persist_manifest ctx (
      update_step m step.id λ s. record s {
        grant_id = some grant.unsigned.grant_id;
        state = StepState.running;
        started_at = some now;
      })
  (receipt, output) ← dispatch_step ctx.env ctx.allowed policy key step grant
  settle_step ctx run_id step receipt output m

unfoldable pub run_step : Ctx → PolicyArtifact → Str → CompiledStep → RunManifest → M Flow
run_step ctx policy run_id step m = do
  approval ← read_approval run_id step.id
  if is_elevated step.cell && not (is_some approval)
      then await_approval ctx policy run_id step m
      else perform_step ctx policy run_id step approval m

-- `for (const step of runnable) { ... }`
unfoldable pub run_batch : Ctx → PolicyArtifact → Str → List CompiledStep → RunManifest → M Flow
run_batch ctx policy run_id [] m = pure (next m)
run_batch ctx policy run_id (step ∷ steps) m = do
  flow ← run_step ctx policy run_id step m
  elim flow [ stop m ↦ pure (stop m) | next m ↦ run_batch ctx policy run_id steps m ]

-- Behind the loop.
unfoldable pub finish_run : Ctx → Str → RunManifest → M RunManifest
unfolding some_step every_step set_state
finish_run ctx run_id m =
    if some_step is_awaiting m.steps
    then persist_manifest ctx (set_state RunState.awaiting_approval m)
    else complete
  where
    complete : M RunManifest
    complete = do
      let final = if every_step is_succeeded m.steps then RunState.succeeded else RunState.failed
      m ← persist_manifest ctx (set_state final m)
      append_event ctx.env run_id (run_completed final)
      pure m

-- `while (true) { ... }`, with fuel for its rounds; `none` means that the fuel ran out.
unfoldable pub run_rounds :
    Ctx → CompiledGraph → PolicyArtifact → Str → ℕ → RunManifest → M (Option RunManifest)
run_rounds ctx graph policy run_id zero m = pure none
run_rounds ctx graph policy run_id (suc fuel) m = do
  runnable ← from_result (next_runnable_steps graph.nodes m.steps)
  elim runnable [
    | [] ↦ do m ← finish_run ctx run_id m; pure (some m)
    | step ∷ steps ↦ do
      flow ← run_batch ctx policy run_id (step ∷ steps) m
      elim flow [ stop m ↦ pure (some m) | next m ↦ run_rounds ctx graph policy run_id fuel m ]
  ]
