-- ===== src/Controller/Frame/Recovery.antt =====
-- Recovery leaves the controller's files alone.
use tool_flow.Prelude.{Str, arith, Option, none, some, List, [], ◌∷◌}
use tool_flow.Types.{ReplayClass, GrantRecord, Receipt, RunManifest, StepManifest, CompiledStep}
use tool_flow.Env.{Env}
use tool_flow.World.{pure}
use tool_flow.Run.Manifest.{Ctx, apply_receipt}
use tool_flow.Run.Recovery.{
  reconciled_from_receipt, recover_ungranted, close_grant, recover_granted, recover_with_grant,
  recover_interrupted, recover_entry, recover_step, recover_steps, recover_run,
}
use tool_flow.Controller.Frame.{KeepsFlows, KeepsFlows-bind, keep_rules}
use tool_flow.Controller.Frame.Bridges.{
  expire_grant-KeepsFlows, void_grant-KeepsFlows, read_grant-KeepsFlows,
  try_read_receipt-KeepsFlows, write_manifest-KeepsFlows, read_manifest-KeepsFlows,
  sync_taskflow_mirror-KeepsFlows,
}
use tool_flow.Controller.Frame.Runs.{run_rules}

close_grant-KeepsFlows :
    (env : Env) (run_id : Str) (rec : GrantRecord) → KeepsFlows (close_grant env run_id rec)
unfolding close_grant
close_grant-KeepsFlows env run_id rec =
    search (keep_rules, expire_grant-KeepsFlows, void_grant-KeepsFlows)

recover_granted-KeepsFlows :
    (env : Env) (run_id : Str) (c : ReplayClass) (rec : GrantRecord) (s : StepManifest)
    → KeepsFlows (recover_granted env run_id c rec s)
unfolding recover_granted
recover_granted-KeepsFlows env run_id c rec s = record {
  at = λ w. ground (arith, (close_grant-KeepsFlows env run_id rec).at w);
}

recover_with_grant-KeepsFlows :
    (env : Env) (run_id : Str) (c : ReplayClass) (grant_id : Str) (s : StepManifest)
    → KeepsFlows (recover_with_grant env run_id c grant_id s)
unfolding recover_with_grant
recover_with_grant-KeepsFlows env run_id c grant_id s =
    KeepsFlows-bind _ _ (read_grant-KeepsFlows run_id grant_id)
      λ rec. KeepsFlows-bind _ _ (try_read_receipt-KeepsFlows run_id rec.receipt_id) (go rec)
  where
    go :
        (rec : GrantRecord) (receipt : Option Receipt)
        → KeepsFlows (elim receipt [
          | some r ↦ pure (apply_receipt r s, reconciled_from_receipt)
          | none ↦ recover_granted env run_id c rec s
        ])
    go rec none = recover_granted-KeepsFlows env run_id c rec s
    go rec (some r) = search keep_rules

recover_interrupted-KeepsFlows :
    (env : Env) (run_id : Str) (c : ReplayClass) (s : StepManifest)
    → KeepsFlows (recover_interrupted env run_id c s)
unfolding recover_interrupted
recover_interrupted-KeepsFlows env run_id c s =
    KeepsFlows-bind _ _ (try_read_receipt-KeepsFlows run_id s.receipt_id) (by_receipt s.grant_id)
  where
    by_receipt :
        (g : Option Str) (receipt : Option Receipt)
        → KeepsFlows (elim receipt [
          | some r ↦ pure (apply_receipt r s, reconciled_from_receipt)
          | none ↦ elim g [
            | none ↦ pure (recover_ungranted c s)
            | some id ↦ elim id [
              | [] ↦ pure (recover_ungranted c s)
              | d ∷ rest ↦ recover_with_grant env run_id c (d ∷ rest) s
            ]
          ]
        ])
    by_receipt g (some r) = search keep_rules
    by_receipt none none = search keep_rules
    by_receipt (some []) none = search keep_rules
    by_receipt (some (d ∷ id)) none = recover_with_grant-KeepsFlows env run_id c (d ∷ id) s

recover_entry-KeepsFlows :
    (env : Env) (run_id : Str) (c : ReplayClass) (s : StepManifest)
    → KeepsFlows (recover_entry env run_id c s)
unfolding recover_entry
recover_entry-KeepsFlows env run_id c s = search (keep_rules, recover_interrupted-KeepsFlows)

recover_step-KeepsFlows :
    (env : Env) (m : RunManifest) (node : CompiledStep) → KeepsFlows (recover_step env m node)
unfolding recover_step
recover_step-KeepsFlows env m node = search (keep_rules, recover_entry-KeepsFlows)

recover_steps-KeepsFlows :
    (env : Env) (nodes : List CompiledStep) (m : RunManifest)
    → KeepsFlows (recover_steps env nodes m)
unfolding recover_steps
recover_steps-KeepsFlows env [] m = search keep_rules
recover_steps-KeepsFlows env (n ∷ ns) m =
    search (keep_rules, recover_step-KeepsFlows, recover_steps-KeepsFlows env ns)

pub recover_run-KeepsFlows : (ctx : Ctx) (run_id : Str) → KeepsFlows (recover_run ctx run_id)
unfolding recover_run
recover_run-KeepsFlows ctx run_id =
    search
      (
        run_rules, read_manifest-KeepsFlows, recover_steps-KeepsFlows, write_manifest-KeepsFlows,
        sync_taskflow_mirror-KeepsFlows,
      )
      depth 12
