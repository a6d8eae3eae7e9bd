-- ===== src/Controller/Reached.antt =====
-- The states that commands of the controller and of the run service lead to.
use tool_flow.Prelude.{◌≡◌, refl, Str, List, [], ◌∷◌}
use tool_flow.Types.{RawWorkflow}
use tool_flow.Env.{Env}
use tool_flow.Config.{RuntimeConfig}
use tool_flow.World.{World, M, ◌>>=◌, After-bind, ControllerFlowRecord, ControllerLinkedRun}
use tool_flow.Mirror.{sync_taskflow_mirror_from_ledger, read_taskflow_mirror}
use tool_flow.Run.Manifest.{Ctx}
use tool_flow.Run.Recovery.{recover_run}
use tool_flow.Run.Operator.{run_workflow, resume_workflow, approve_run_step, cancel_run}
use tool_flow.Controller.{
  new_flow_id, save_flow, FlowInput, FlowPatch, create_controller_flow, read_controller_flow,
  launch_controller_workflow, follow_runs, reconcile_controller_flow, update_controller_flow,
}
use tool_flow.Controller.Index.{
  IsListed, empty-IsListed, IsListed-same, controller_files, save_flow-IsListed,
}
use tool_flow.Controller.Frame.{KeepsFlows, KeepsFlows-now_iso, keep_rules}
use tool_flow.Controller.Frame.Bridges.{read_manifest-KeepsFlows, sync_taskflow_mirror-KeepsFlows}
use tool_flow.Controller.Frame.Recovery.{recover_run-KeepsFlows}
use tool_flow.Controller.Frame.Operator.{
  run_workflow-KeepsFlows, resume_workflow-KeepsFlows, approve_run_step-KeepsFlows,
  cancel_run-KeepsFlows,
}

-- Code that keeps the index right, whether it returns or throws.
pub record KeepsIndex {A : Type 0} (m : M A) : Type 0 where
  pub at : (w : World) → IsListed w.ledger → IsListed (m w).1.ledger

module _ {A : Type 0} where
  pub KeepsIndex-KeepsFlows : {m : M A} → KeepsFlows m → KeepsIndex m
  KeepsIndex-KeepsFlows {m} k = record {
    at = λ w h. IsListed-same (m w).1.ledger w.ledger (k.at w) h;
  }

  KeepsIndex-bind :
      {B : Type 0} (m : M A) (f : A → M B)
      → KeepsIndex m
      → ((a : A) → KeepsIndex (f a))
      → KeepsIndex (m >>= f)
  KeepsIndex-bind m f p k = record {
    at = λ w h.
        After-bind (λ r v. IsListed v.ledger) (λ r v. IsListed v.ledger) m f w (p.at w h)
          (λ a v l. (k a).at v l) (λ e v l. l);
  }

save_flow-KeepsIndex :
    (env : Env) (config : RuntimeConfig) (f : ControllerFlowRecord)
    → KeepsIndex (save_flow env config f)
save_flow-KeepsIndex env config f = record { at = save_flow-IsListed env config f }

new_flow_id-KeepsFlows : (env : Env) → KeepsFlows (new_flow_id env)
unfolding new_flow_id
new_flow_id-KeepsFlows env = record { at = λ w. refl }

read_controller_flow-KeepsFlows :
    (config : RuntimeConfig) (id : Str) → KeepsFlows (read_controller_flow config id)
unfolding read_controller_flow
read_controller_flow-KeepsFlows config id = search keep_rules

sync_from_ledger-KeepsFlows :
    (env : Env) (config : RuntimeConfig) (id : Str)
    → KeepsFlows (sync_taskflow_mirror_from_ledger env config id)
unfolding sync_taskflow_mirror_from_ledger
sync_from_ledger-KeepsFlows env config id =
    search (keep_rules, read_manifest-KeepsFlows, sync_taskflow_mirror-KeepsFlows)

read_taskflow_mirror-KeepsFlows :
    (config : RuntimeConfig) (id : Str) → KeepsFlows (read_taskflow_mirror config id)
unfolding read_taskflow_mirror
read_taskflow_mirror-KeepsFlows config id = search keep_rules

follow_runs-KeepsFlows :
    (config : RuntimeConfig) (ls : List ControllerLinkedRun) (f : ControllerFlowRecord)
    → KeepsFlows (follow_runs config ls f)
unfolding follow_runs
follow_runs-KeepsFlows config [] f = search keep_rules
follow_runs-KeepsFlows config (l ∷ ls) f =
    search (keep_rules, read_taskflow_mirror-KeepsFlows, follow_runs-KeepsFlows config ls)

ruleset index_rules = (
  KeepsIndex-bind, KeepsIndex-KeepsFlows, save_flow-KeepsIndex, KeepsFlows-now_iso,
  new_flow_id-KeepsFlows, read_controller_flow-KeepsFlows, sync_from_ledger-KeepsFlows,
  follow_runs-KeepsFlows, run_workflow-KeepsFlows,
)

create-KeepsIndex :
    (env : Env) (config : RuntimeConfig) (input : FlowInput)
    → KeepsIndex (create_controller_flow env config input)
unfolding create_controller_flow
create-KeepsIndex env config input = search index_rules

launch-KeepsIndex :
    (ctx : Ctx) (id path purpose : Str) (raw : RawWorkflow)
    → KeepsIndex (launch_controller_workflow ctx id path purpose raw)
unfolding launch_controller_workflow
launch-KeepsIndex ctx id path purpose raw = search index_rules depth 12

reconcile-KeepsIndex :
    (env : Env) (config : RuntimeConfig) (id : Str)
    → KeepsIndex (reconcile_controller_flow env config id)
unfolding reconcile_controller_flow
reconcile-KeepsIndex env config id = search index_rules

update-KeepsIndex :
    (env : Env) (config : RuntimeConfig) (id : Str) (patch : FlowPatch)
    → KeepsIndex (update_controller_flow env config id patch)
unfolding update_controller_flow
update-KeepsIndex env config id patch = search index_rules

-- A command that somebody gives, each with its own context.
pub data Command : World → World → Type 0 where
  create :
      (env : Env) (config : RuntimeConfig) (input : FlowInput) (w : World)
      → Command w (create_controller_flow env config input w).1
  launch :
      (ctx : Ctx) (id path purpose : Str) (raw : RawWorkflow) (w : World)
      → Command w (launch_controller_workflow ctx id path purpose raw w).1
  reconcile :
      (env : Env) (config : RuntimeConfig) (id : Str) (w : World)
      → Command w (reconcile_controller_flow env config id w).1
  update :
      (env : Env) (config : RuntimeConfig) (id : Str) (patch : FlowPatch) (w : World)
      → Command w (update_controller_flow env config id patch w).1
  run : (ctx : Ctx) (raw : RawWorkflow) (w : World) → Command w (run_workflow ctx raw w).1
  resume : (ctx : Ctx) (id : Str) (w : World) → Command w (resume_workflow ctx id w).1
  approve :
      (ctx : Ctx) (id step by : Str) (w : World) → Command w (approve_run_step ctx id step by w).1
  cancel : (ctx : Ctx) (id reason : Str) (w : World) → Command w (cancel_run ctx id reason w).1
  recover : (ctx : Ctx) (id : Str) (w : World) → Command w (recover_run ctx id w).1

pub data Reached (start : World) : World → Type 0 where
  here : Reached start start
  then_do : {v w : World} → Reached start v → Command v w → Reached start w

Command-IsListed : {v w : World} → Command v w → IsListed v.ledger → IsListed w.ledger
Command-IsListed (create env config input w) h = (create-KeepsIndex env config input).at w h
Command-IsListed (launch ctx id path purpose raw w) h =
    (launch-KeepsIndex ctx id path purpose raw).at w h
Command-IsListed (reconcile env config id w) h = (reconcile-KeepsIndex env config id).at w h
Command-IsListed (update env config id patch w) h = (update-KeepsIndex env config id patch).at w h
Command-IsListed (run ctx raw w) h =
    (KeepsIndex-KeepsFlows (run_workflow-KeepsFlows ctx raw)).at w h
Command-IsListed (resume ctx id w) h =
    (KeepsIndex-KeepsFlows (resume_workflow-KeepsFlows ctx id)).at w h
Command-IsListed (approve ctx id step by w) h =
    (KeepsIndex-KeepsFlows (approve_run_step-KeepsFlows ctx id step by)).at w h
Command-IsListed (cancel ctx id reason w) h =
    (KeepsIndex-KeepsFlows (cancel_run-KeepsFlows ctx id reason)).at w h
Command-IsListed (recover ctx id w) h =
    (KeepsIndex-KeepsFlows (recover_run-KeepsFlows ctx id)).at w h

-- Whatever commands of the controller and of the run service follow one another from a ledger with
-- no flow and no index, also those that throw, the index of every root is sorted by time and shows
-- exactly the flows that are stored under the root, each once and with its stored goal, status,
-- step and time, and each flow is stored under its own id.
pub Reached-IsListed :
    {start w : World}
    → controller_files start.ledger ≡ ([], [])
    → Reached start w
    → IsListed w.ledger
Reached-IsListed {start} e here =
    IsListed-same start.ledger (record start.ledger { flows = []; flow_indexes = [] }) e
      (empty-IsListed start.ledger)
Reached-IsListed e (then_do r c) = Command-IsListed c (Reached-IsListed e r)
