-- ===== src/Tests/Lines.antt =====
-- Command lines and tools of the plugin on a ledger with one run.
use tool_flow.Prelude.{
  ◌≡◌, ◌⊎◌, Table, All, refl, [], ◌∷◌, codes, none, some, lookup, str_beq, str_eq, Str,
}
use tool_flow.Types.{
  RunState, StepState, RunManifest, RawWorkflow, Result, ok, err, missing_operand,
}
use tool_flow.Config.{default_config}
use tool_flow.World.{World}
use tool_flow.Ledger.{open_store}
use tool_flow.Run.Manifest.{Ctx}
use tool_flow.Run.Loop.{prepare_run}
use tool_flow.Run.Reports.{dry_run, latest_run_id}
use tool_flow.Run.Latest.{IsGreatest, run_names, latest_run_id-IsGreatest}
use tool_flow.Run.Predicted.{Predicts, dry_run-Predicts}
use tool_flow.Cli.{main, ambient_ctx}
use tool_flow.Cli.Usage.{needing_operand, main-absent, main-status_cancel}
use tool_flow.Plugin.{PluginPaths, cancel, execute_tool}
use tool_flow.Plugin.Agreement.{shown, execute_tool-main}
use tool_flow.Tests.Samples.{constant_env, test_key, raw_workflow, no_ledger, world_of}

abbrev ctx : Ctx
ctx = record {
  env = constant_env;
  config = default_config;
  ambient = default_config;
  allowed = [];
  ordinary_key = test_key;
  elevated_key = test_key;
}

abbrev documents : Str → Result RawWorkflow
documents path = ok raw_workflow

abbrev waiting_run : RunManifest
waiting_run = record {
  run_id = codes "run_1";
  workflow_name = codes "w";
  state = RunState.ready;
  created_at = 0;
  updated_at = 0;
  workflow_hash = [];
  graph_hash = [];
  proof_hash = [];
  policy_hash = [];
  steps =
      (
        codes "a",
        record {
          id = codes "a";
          state = StepState.pending;
          grant_id = none;
          receipt_id = none;
          started_at = none;
          ended_at = none;
          output_path = none;
          error = none;
        },
      )
      ∷ [];
}

abbrev one_run : World
one_run = world_of (record no_ledger { manifests = (codes "run_1", waiting_run) ∷ [] })

main-absent_example :
    All
      (λ e. main ctx documents (e.0 ∷ [] ∷ []) one_run ≡ ((err (missing_operand e.1), 1), one_run))
      needing_operand
    × (main ctx documents (codes "recover" ∷ [] ∷ []) one_run ≡ (
      (err (missing_operand (codes "run id")), 1),
      (open_store ctx.env ctx.ambient.ledger_root one_run).1,
    ))
main-absent_example = main-absent ctx documents ([] ∷ []) one_run refl

main-status_cancel_example :
    (main ctx documents
      (codes "status" ∷ codes "run_1" ∷ [])
      (main ctx documents (codes "cancel" ∷ codes "run_1" ∷ []) one_run).1).0
    ≡ (main ctx documents (codes "cancel" ∷ codes "run_1" ∷ []) one_run).0
unfolding lookup str_beq
main-status_cancel_example =
    main-status_cancel ctx documents 114 (codes "un_1") [] one_run waiting_run refl refl

abbrev paths : PluginPaths
paths = record { ledger = codes "/l"; mirror = codes "/m"; template = codes "/t.json" }

execute_tool-main_example :
    execute_tool (ambient_ctx ctx) paths documents (cancel (some (codes "run_1")) none) one_run ≡ (
      shown (main ctx documents (codes "cancel" ∷ codes "run_1" ∷ []) one_run).0.0,
      (main ctx documents (codes "cancel" ∷ codes "run_1" ∷ []) one_run).1,
    )
execute_tool-main_example =
    execute_tool-main ctx paths documents (cancel (some (codes "run_1")) none)
      (codes "cancel" ∷ codes "run_1" ∷ []) one_run refl

dry_run-Predicts_example :
    Predicts
      (dry_run ctx raw_workflow one_run).0
      (prepare_run (record ctx { config = ctx.ambient }) raw_workflow one_run).0
      (prepare_run (record ctx { config = ctx.ambient }) raw_workflow one_run).1
dry_run-Predicts_example = dry_run-Predicts ctx raw_workflow one_run

abbrev two_runs : Table Str RunManifest
two_runs = (codes "run_2", waiting_run) ∷ (codes "run_1", waiting_run) ∷ []

latest_run_id-IsGreatest_example :
    ((run_names two_runs ≡ []) × (latest_run_id two_runs ≡ none))
    ⊎ ((t : Str) × (latest_run_id two_runs ≡ some t) × IsGreatest t (run_names two_runs))
latest_run_id-IsGreatest_example = latest_run_id-IsGreatest two_runs
