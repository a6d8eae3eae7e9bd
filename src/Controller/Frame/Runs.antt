-- ===== src/Controller/Frame/Runs.antt =====
-- The run loop leaves the controller's files alone.
use tool_flow.Prelude.{Str, ℕ, zero, suc, Option, some, List, [], ◌∷◌}
use tool_flow.Types.{
  Receipt, RunManifest, ReceiptStatus, Fields, RawWorkflow, CompiledGraph, CompiledStep,
  PolicyArtifact, ApprovalBinding,
}
use tool_flow.Env.{Env}
use tool_flow.Config.{RuntimeConfig}
use tool_flow.World.{◌>>=◌, pure}
use tool_flow.Classifier.{build_proof_bundle}
use tool_flow.Policy.{compile_policy_artifact}
use tool_flow.Run.Manifest.{Ctx}
use tool_flow.Run.Loop.{
  persist_manifest, prepare_run, Flow, next, stop, await_approval, settle_step, perform_step,
  run_step, run_batch, finish_run, run_rounds,
}
use tool_flow.Controller.Frame.{KeepsFlows, KeepsFlows-bind, keep_rules}
use tool_flow.Controller.Frame.Bridges.{
  write_approval-KeepsFlows, expire_grant-KeepsFlows, void_grant-KeepsFlows, read_grant-KeepsFlows,
  try_read_receipt-KeepsFlows, read_approval-KeepsFlows, append_event-KeepsFlows,
  write_manifest-KeepsFlows, read_manifest-KeepsFlows, sync_taskflow_mirror-KeepsFlows,
  dispatch_step-KeepsFlows, mint_step_grant-KeepsFlows,
}

pub persist_manifest-KeepsFlows :
    (ctx : Ctx) (m : RunManifest) → KeepsFlows (persist_manifest ctx m)
unfolding persist_manifest
persist_manifest-KeepsFlows ctx m =
    search (keep_rules, write_manifest-KeepsFlows, sync_taskflow_mirror-KeepsFlows)

pub ruleset run_rules = (keep_rules, persist_manifest-KeepsFlows, append_event-KeepsFlows)

build_proof_bundle-KeepsFlows :
    (env : Env) (g : CompiledGraph) (config : RuntimeConfig)
    → KeepsFlows (build_proof_bundle env g config)
unfolding build_proof_bundle
build_proof_bundle-KeepsFlows env g config = search keep_rules

compile_policy_artifact-KeepsFlows :
    (env : Env) (g : CompiledGraph) (config : RuntimeConfig)
    → KeepsFlows (compile_policy_artifact env g config)
unfolding compile_policy_artifact
compile_policy_artifact-KeepsFlows env g config = search keep_rules

pub prepare_run-KeepsFlows : (ctx : Ctx) (raw : RawWorkflow) → KeepsFlows (prepare_run ctx raw)
unfolding prepare_run
prepare_run-KeepsFlows ctx raw =
    search (run_rules, build_proof_bundle-KeepsFlows, compile_policy_artifact-KeepsFlows) depth 12

await_approval-KeepsFlows :
    (ctx : Ctx) (policy : PolicyArtifact) (run_id : Str) (step : CompiledStep) (m : RunManifest)
    → KeepsFlows (await_approval ctx policy run_id step m)
unfolding await_approval
await_approval-KeepsFlows ctx policy run_id step m = search run_rules

after_receipt-KeepsFlows :
    (ctx : Ctx) (status : ReceiptStatus) (failed succeeded : RunManifest)
    → KeepsFlows (elim status [
      | ReceiptStatus.failed ↦ do m ← persist_manifest ctx failed; pure (stop m)
      | ReceiptStatus.succeeded ↦ do m ← persist_manifest ctx succeeded; pure (next m)
    ])
after_receipt-KeepsFlows ctx ReceiptStatus.failed failed succeeded = search run_rules
after_receipt-KeepsFlows ctx ReceiptStatus.succeeded failed succeeded = search run_rules

settle_step-KeepsFlows :
    (ctx : Ctx) (run_id : Str) (step : CompiledStep) (receipt : Receipt) (output : Option Fields)
    (m : RunManifest)
    → KeepsFlows (settle_step ctx run_id step receipt output m)
unfolding settle_step
settle_step-KeepsFlows ctx run_id step receipt output m =
    search (run_rules, after_receipt-KeepsFlows ctx receipt.unsigned.status)

perform_step-KeepsFlows :
    (ctx : Ctx) (policy : PolicyArtifact) (run_id : Str) (step : CompiledStep)
    (approval : Option ApprovalBinding) (m : RunManifest)
    → KeepsFlows (perform_step ctx policy run_id step approval m)
unfolding perform_step
perform_step-KeepsFlows ctx policy run_id step approval m =
    search (run_rules, mint_step_grant-KeepsFlows, dispatch_step-KeepsFlows, settle_step-KeepsFlows)

run_step-KeepsFlows :
    (ctx : Ctx) (policy : PolicyArtifact) (run_id : Str) (step : CompiledStep) (m : RunManifest)
    → KeepsFlows (run_step ctx policy run_id step m)
unfolding run_step
run_step-KeepsFlows ctx policy run_id step m =
    search (run_rules, read_approval-KeepsFlows, await_approval-KeepsFlows, perform_step-KeepsFlows)

run_batch-KeepsFlows :
    (ctx : Ctx) (policy : PolicyArtifact) (run_id : Str) (steps : List CompiledStep)
    (m : RunManifest)
    → KeepsFlows (run_batch ctx policy run_id steps m)
unfolding run_batch
run_batch-KeepsFlows ctx policy run_id [] m = search keep_rules
run_batch-KeepsFlows ctx policy run_id (step ∷ steps) m =
    KeepsFlows-bind (run_step ctx policy run_id step m) _
      (run_step-KeepsFlows ctx policy run_id step m)
      (go (run_batch-KeepsFlows ctx policy run_id steps))
  where
    go :
        ((m : RunManifest) → KeepsFlows (run_batch ctx policy run_id steps m))
        → (flow : Flow)
        → KeepsFlows
            (elim flow [ stop m ↦ pure (stop m) | next m ↦ run_batch ctx policy run_id steps m ])
    go rest (stop m) = search keep_rules
    go rest (next m) = rest m

finish_run-KeepsFlows :
    (ctx : Ctx) (run_id : Str) (m : RunManifest) → KeepsFlows (finish_run ctx run_id m)
unfolding finish_run
finish_run-KeepsFlows ctx run_id m = search run_rules

pub run_rounds-KeepsFlows :
    (ctx : Ctx) (graph : CompiledGraph) (policy : PolicyArtifact) (run_id : Str) (fuel : ℕ)
    (m : RunManifest)
    → KeepsFlows (run_rounds ctx graph policy run_id fuel m)
unfolding run_rounds
run_rounds-KeepsFlows ctx graph policy run_id zero m = search keep_rules
run_rounds-KeepsFlows ctx graph policy run_id (suc fuel) m =
    KeepsFlows-bind _ _ (search keep_rules)
      (round (run_rounds-KeepsFlows ctx graph policy run_id fuel))
  where
    go :
        ((m : RunManifest) → KeepsFlows (run_rounds ctx graph policy run_id fuel m))
        → (flow : Flow)
        → KeepsFlows (elim flow [
          | stop m ↦ pure (some m)
          | next m ↦ run_rounds ctx graph policy run_id fuel m
        ])
    go rest (stop m) = search keep_rules
    go rest (next m) = rest m

    round :
        ((m : RunManifest) → KeepsFlows (run_rounds ctx graph policy run_id fuel m))
        → (runnable : List CompiledStep)
        → KeepsFlows (elim runnable [
          | [] ↦ do m ← finish_run ctx run_id m; pure (some m)
          | step ∷ steps ↦ do
            flow ← run_batch ctx policy run_id (step ∷ steps) m
            elim flow [
              | stop m ↦ pure (some m)
              | next m ↦ run_rounds ctx graph policy run_id fuel m
            ]
        ])
    round rest [] = search (keep_rules, finish_run-KeepsFlows)
    round rest (step ∷ steps) =
        KeepsFlows-bind _ _ (run_batch-KeepsFlows ctx policy run_id (step ∷ steps) m) (go rest)
