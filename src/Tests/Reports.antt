-- ===== src/Tests/Reports.antt =====
-- Configurations and the progress monitor at concrete inputs.
use tool_flow.Prelude.{
  ◌+◌, ◌*◌, ◌-◌, ◌≤◌, max, true, false, List, [], ◌∷◌, ◌≡◌, refl, codes, none, some, tally, ◌==◌,
  str_eq, if◌then◌else◌,
}
use tool_flow.Types.{RunManifest, RunState}
use tool_flow.Config.{stderr, RuntimeProgressConfig}
use tool_flow.Config.Resolve.{
  Overrides, resolve_config, as_overrides, resolve_config-again, Variables,
}
use tool_flow.Progress.{
  Reporter, new_reporter, report, Call, started, step_starts, step_ends, approval_waits, stopped,
}
use tool_flow.Progress.Spacing.{is_long, is_wait, report_bound}
use tool_flow.Progress.Announced.{Announced, report-Announced}
use tool_flow.Tests.Samples.{constant_env}

-- One variable is set.
abbrev variables : Variables
variables k = if k == codes "TOOLFLOW_LEDGER_DIR" then some (codes "/l") else none

abbrev overrides : Overrides
overrides = record {
  ledger_root = none;
  taskflow_mirror_root = some (codes "/m");
  grant_ttl_seconds = some 60;
  enable_elevated = some true;
  elevated_allowed_commands = none;
  progress_updates = none;
}

resolve_config-again_example :
    resolve_config constant_env variables
      (as_overrides (resolve_config constant_env variables overrides))
    ≡ resolve_config constant_env variables overrides
resolve_config-again_example = resolve_config-again constant_env variables overrides (λ p. refl)

abbrev eager : RuntimeProgressConfig
eager = record {
  enabled = true;
  long_run_threshold_ms = 0;
  interval_ms = 2000;
  sink = stderr;
  command = none;
}

abbrev running : RunManifest
running = record {
  run_id = codes "r";
  workflow_name = codes "w";
  state = RunState.running;
  created_at = 0;
  updated_at = 0;
  workflow_hash = [];
  graph_hash = [];
  proof_hash = [];
  policy_hash = [];
  steps = [];
}

abbrev calls : List Call
calls =
    started (record { manifest = running; current_step_id = none })
    ∷ step_starts (codes "a") running
    ∷ step_ends (codes "a") running
    ∷ approval_waits (codes "b") running
    ∷ stopped
    ∷ []

abbrev reported : Reporter
reported = report constant_env eager 2 false calls (new_reporter 0)

report_bound_example :
    tally is_long reported.events * max 2000 1000
    ≤ constant_env.clock reported.ticks
      - constant_env.clock 0
      + max 2000 1000
      + tally is_wait reported.events * max 2000 1000
report_bound_example = report_bound constant_env eager 2 (λ m n h. h) 0 false calls

report-Announced_example : Announced reported.events
report-Announced_example = report-Announced constant_env eager 2 0 false calls
