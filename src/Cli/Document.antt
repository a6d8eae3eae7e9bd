-- ===== src/Cli/Document.antt =====
-- The commands of the command line (packages/runtime/src/cli/toolflow.ts) and what they print.
use tool_flow.Prelude.{ℕ, Bool, List, Str}
use tool_flow.Types.{RunManifest, Receipt}
use tool_flow.Run.Recovery.{RecoveryStepResult}
use tool_flow.Run.Reports.{Inspection, DryRun}

pub data Command : Type 0 where
  help validate dry_run run resume approve cancel recover receipts status inspect doctor : Command

-- What `doctor` finds; its other lines are constants.
pub record Doctor : Type 0 where
  pub ledger_root : Str
  pub run_count : ℕ
  pub enable_elevated : Bool
  pub allowed_commands : List Str

pub data Printed : Type 0 where
  usage : Printed
  validated : (name graph_hash : Str) (steps : ℕ) → Printed
  classified : DryRun → Printed
  manifest : RunManifest → Printed
  recovered : RunManifest → List RecoveryStepResult → Printed
  receipt_list : Str → List Receipt → Printed
  inspected : Inspection → Printed
  checkup : Doctor → Printed
