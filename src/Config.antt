-- ===== src/Config.antt =====
-- The runtime configuration (packages/runtime/src/config/schema.ts and defaults.ts). The function
-- `progressReporter` that a caller may give is no value of it: see Progress.
pub mod Resolve
use tool_flow.Prelude.{ℕ, ◌*◌, Bool, false, List, [], Str, codes, Option, none}

pub data ProgressSink : Type 0 where
  stderr command : ProgressSink

pub record RuntimeProgressConfig : Type 0 where
  pub enabled : Bool
  pub long_run_threshold_ms : ℕ
  pub interval_ms : ℕ
  pub sink : ProgressSink
  pub command : Option Str

pub record RuntimeConfig : Type 0 where
  pub ledger_root : Str
  pub taskflow_mirror_root : Str
  pub grant_ttl_seconds : ℕ
  pub enable_elevated : Bool
  pub elevated_allowed_commands : List Str
  pub progress_updates : RuntimeProgressConfig

unfoldable pub default_config : RuntimeConfig
default_config = record {
  ledger_root = codes "data/ledger";
  taskflow_mirror_root = codes "data/taskflow-mirror";
  grant_ttl_seconds = 300;
  enable_elevated = false;
  elevated_allowed_commands = [];
  progress_updates = record {
    enabled = false;
    long_run_threshold_ms = 5 * 60 * 1000;
    interval_ms = 5 * 60 * 1000;
    sink = stderr;
    command = none;
  };
}
