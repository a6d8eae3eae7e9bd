-- ===== src/Cli.antt =====
-- The command line (packages/runtime/src/cli/toolflow.ts). What a command prints is the value that it
-- gives to JSON.stringify; `JSON.parse` of a workflow file is a parameter of `main`.
pub mod Document
pub mod Reading
pub mod Usage
use tool_flow.Prelude.{
  ℕ, zero, suc, Bool, List, [], ◌∷◌, ◌-◌, Str, codes, Option, none, some, str_eq, ◌==◌, length,
  drop, or_else, if◌then◌else◌,
}
use tool_flow.Types.{RawWorkflow, Result, ok, err, not_json_file, missing_operand, unknown_command}
use tool_flow.World.{World, M, ◌>>=◌, ◌>>◌, pure, throw, from_result, read_ledger}
use tool_flow.Compiler.Graph.{compile_workflow}
use tool_flow.Ledger.{open_store}
use tool_flow.Run.Manifest.{Ctx}
use tool_flow.Cli.Document.{
  Command, Doctor, Printed, usage, validated, classified, manifest, recovered, receipt_list,
  inspected, checkup,
}
use tool_flow.Run.Recovery.{recover_run}
use tool_flow.Run.Operator.{run_workflow, resume_workflow, approve_run_step, cancel_run}
use tool_flow.Run.Reports.{list_run_ids, get_run_receipts, get_run_status, inspect_run, dry_run}

unfoldable pub command_of : Str → Option Command
command_of name =
    if name == codes "help"
    then some Command.help
    else if name == codes "--help"
    then some Command.help
    else if name == codes "validate"
    then some Command.validate
    else if name == codes "dry-run"
    then some Command.dry_run
    else if name == codes "run"
    then some Command.run
    else if name == codes "resume"
    then some Command.resume
    else if name == codes "approve"
    then some Command.approve
    else if name == codes "cancel"
    then some Command.cancel
    else if name == codes "recover"
    then some Command.recover
    else if name == codes "receipts"
    then some Command.receipts
    else if name == codes "status"
    then some Command.status
    else if name == codes "inspect"
    then some Command.inspect
    else if name == codes "doctor"
    then some Command.doctor
    else none

-- `args[i]`
abbrev pub arg : List Str → ℕ → Option Str
arg [] i = none
arg (a ∷ args) zero = some a
arg (a ∷ args) (suc i) = arg args i

-- An operand that is absent or empty is missing.
unfoldable pub required : Option Str → Str → M Str
required (some (c ∷ s)) label = pure (c ∷ s)
required _ label = throw (missing_operand label)

unfoldable pub parse_workflow_file : (Str → Result RawWorkflow) → Str → Result RawWorkflow
parse_workflow_file documents path =
    if drop (length path - 5) path == codes ".json" then documents path else err not_json_file

-- Every command runs with the configuration of the environment alone.
abbrev pub ambient_ctx : Ctx → Ctx
ambient_ctx ctx = record ctx { config = ctx.ambient }

unfoldable pub validate : Ctx → (Str → Result RawWorkflow) → Str → M Printed
validate ctx documents path = do
  raw ← from_result (parse_workflow_file documents path)
  (source, graph) ← from_result (compile_workflow ctx.env raw)
  pure (validated source.name graph.graph_hash (length graph.nodes))

unfoldable pub doctor : Ctx → M Printed
doctor ctx = do
  open_store ctx.env ctx.config.ledger_root
  l ← read_ledger
  pure (
      checkup (record {
        ledger_root = ctx.config.ledger_root;
        run_count = length (list_run_ids l.manifests);
        enable_elevated = ctx.config.enable_elevated;
        allowed_commands = ctx.config.elevated_allowed_commands;
      }))

-- `prepareRun` opens the ledger before it reads the workflow file.
unfoldable pub perform : Ctx → (Str → Result RawWorkflow) → Command → List Str → M Printed
perform ctx documents Command.help args = pure usage
perform ctx documents Command.validate args = do
  path ← required (arg args 0) (codes "workflow path")
  validate ctx documents path
perform ctx documents Command.dry_run args = do
  path ← required (arg args 0) (codes "workflow path")
  raw ← from_result (parse_workflow_file documents path)
  report ← dry_run ctx raw
  pure (classified report)
perform ctx documents Command.run args = do
  path ← required (arg args 0) (codes "workflow path")
  open_store ctx.env ctx.config.ledger_root
  raw ← from_result (parse_workflow_file documents path)
  m ← run_workflow ctx raw
  pure (manifest m)
perform ctx documents Command.resume args = do
  id ← required (arg args 0) (codes "run id")
  m ← resume_workflow ctx id
  pure (manifest m)
perform ctx documents Command.approve args = do
  id ← required (arg args 0) (codes "run id")
  step ← required (arg args 1) (codes "step id")
  m ← approve_run_step ctx id step (or_else (arg args 2) (codes "operator"))
  pure (manifest m)
perform ctx documents Command.cancel args = do
  id ← required (arg args 0) (codes "run id")
  m ← cancel_run ctx id (or_else (arg args 1) (codes "operator_cancelled"))
  pure (manifest m)
perform ctx documents Command.recover args = do
  open_store ctx.env ctx.config.ledger_root
  id ← required (arg args 0) (codes "run id")
  (m, steps) ← recover_run ctx id
  pure (recovered m steps)
perform ctx documents Command.receipts args = do
  (id, receipts) ← get_run_receipts ctx (arg args 0)
  pure (receipt_list id receipts)
perform ctx documents Command.status args = do
  m ← get_run_status ctx (arg args 0)
  pure (manifest m)
perform ctx documents Command.inspect args = do
  report ← inspect_run ctx (arg args 0)
  pure (inspected report)
perform ctx documents Command.doctor args = doctor ctx

-- The branch for the command with this name, if it is one.
unfoldable pub carry_out :
    Ctx → (Str → Result RawWorkflow) → Str → List Str → Option Command → M Printed
carry_out ctx documents name args none = throw (unknown_command name)
carry_out ctx documents name args (some command) = perform ctx documents command args

unfoldable pub dispatch_command : Ctx → (Str → Result RawWorkflow) → List Str → M Printed
unfolding carry_out command_of
dispatch_command ctx documents [] = pure usage
dispatch_command ctx documents ([] ∷ args) = pure usage
dispatch_command ctx documents ((c ∷ name) ∷ args) =
    carry_out (ambient_ctx ctx) documents (c ∷ name) args (command_of (c ∷ name))

-- `process.exitCode`
unfoldable pub exit_code : Result Printed → ℕ
exit_code (ok p) = 0
exit_code (err e) = 1

-- The document or the error that is printed, and the exit code.
unfoldable pub main :
    Ctx → (Str → Result RawWorkflow) → List Str → World → (Result Printed × ℕ) × World
main ctx documents argv w =
    let r = dispatch_command ctx documents argv w in ((r.0, exit_code r.0), r.1)
