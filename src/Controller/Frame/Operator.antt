-- ===== src/Controller/Frame/Operator.antt =====
-- The commands on runs leave the controller's files alone.
use tool_flow.Prelude.{Str, arith}
use tool_flow.Types.{RunManifest, RawWorkflow, CompiledStep}
use tool_flow.Env.{Env}
use tool_flow.Run.Manifest.{Ctx}
use tool_flow.Run.Operator.{
  load_for_resume, drive, resume_workflow, run_workflow, approve_step, approve_run_step, cancel_run,
}
use tool_flow.Controller.Frame.{KeepsFlows, KeepsFlows-bind, KeepsFlows-open_store, keep_rules}
use tool_flow.Controller.Frame.Bridges.{write_approval-KeepsFlows, read_manifest-KeepsFlows}
use tool_flow.Controller.Frame.Runs.{run_rules, prepare_run-KeepsFlows, run_rounds-KeepsFlows}
use tool_flow.Controller.Frame.Recovery.{recover_run-KeepsFlows}

load_for_resume-KeepsFlows : (ctx : Ctx) (run_id : Str) → KeepsFlows (load_for_resume ctx run_id)
unfolding load_for_resume
load_for_resume-KeepsFlows ctx run_id =
    search (run_rules, read_manifest-KeepsFlows, recover_run-KeepsFlows)

drive-KeepsFlows : (ctx : Ctx) (m : RunManifest) → KeepsFlows (drive ctx m)
unfolding drive
drive-KeepsFlows ctx m = search (run_rules, run_rounds-KeepsFlows) depth 12

pub resume_workflow-KeepsFlows :
    (ctx : Ctx) (run_id : Str) → KeepsFlows (resume_workflow ctx run_id)
unfolding resume_workflow
resume_workflow-KeepsFlows ctx run_id =
    KeepsFlows-bind _ _ (KeepsFlows-open_store ctx.env ctx.config.ledger_root) λ _.
      KeepsFlows-bind _ _ (load_for_resume-KeepsFlows ctx run_id)
        λ m. record { at = λ w. ground (arith, (drive-KeepsFlows ctx m).at w) }

pub run_workflow-KeepsFlows : (ctx : Ctx) (raw : RawWorkflow) → KeepsFlows (run_workflow ctx raw)
unfolding run_workflow
run_workflow-KeepsFlows ctx raw =
    search (keep_rules, prepare_run-KeepsFlows, resume_workflow-KeepsFlows)

approve_step-KeepsFlows :
    (env : Env) (run_id : Str) (step : CompiledStep) (policy_hash by : Str)
    → KeepsFlows (approve_step env run_id step policy_hash by)
unfolding approve_step
approve_step-KeepsFlows env run_id step policy_hash by =
    search (keep_rules, write_approval-KeepsFlows)

pub approve_run_step-KeepsFlows :
    (ctx : Ctx) (run_id step_id by : Str) → KeepsFlows (approve_run_step ctx run_id step_id by)
unfolding approve_run_step
approve_run_step-KeepsFlows ctx run_id step_id by =
    search (run_rules, read_manifest-KeepsFlows, approve_step-KeepsFlows) depth 12

pub cancel_run-KeepsFlows :
    (ctx : Ctx) (run_id reason : Str) → KeepsFlows (cancel_run ctx run_id reason)
unfolding cancel_run
cancel_run-KeepsFlows ctx run_id reason = search (run_rules, read_manifest-KeepsFlows) depth 12
