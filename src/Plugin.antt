-- ===== src/Plugin.antt =====
-- The tools of the plugin (packages/plugin/src/entry.ts) and the client that they call
-- (packages/plugin/src/client/runtime-client.ts). A parameter of a tool is a text or is not given.
pub mod Agreement
use tool_flow.Prelude.{ℕ, Bool, true, List, [], ◌∷◌, ◌*◌, Str, codes, Option, none, some, or_else}
use tool_flow.Types.{RawWorkflow, Failure, Result, ok, err, not_a_text}
use tool_flow.Env.{Env}
use tool_flow.Config.{ProgressSink, stderr}
use tool_flow.Config.Resolve.{ProgressOverrides, Overrides, Variables, field_of, resolve_config}
use tool_flow.World.{World, M, ◌>>=◌, ◌>>◌, pure, from_result}
use tool_flow.Ledger.{open_store}
use tool_flow.Run.Manifest.{Ctx}
use tool_flow.Run.Operator.{run_workflow, cancel_run}
use tool_flow.Run.Reports.{get_run_receipts, get_run_status, inspect_run, dry_run}
use tool_flow.Cli.Document.{Printed, classified, manifest, receipt_list, inspected}
use tool_flow.Cli.{parse_workflow_file}

pub record PluginConfig : Type 0 where
  pub ledger_root : Option Str
  pub taskflow_mirror_root : Option Str
  pub enable_elevated : Option Bool
  pub elevated_allowed_commands : Option (List Str)
  pub progress_updates : Option ProgressOverrides

-- Paths next to the plugin's own files.
pub record PluginPaths : Type 0 where
  pub ledger : Str
  pub mirror : Str
  pub template : Str

-- `{ enabled: true, ..., ...config.progressUpdates }`
unfoldable pub client_progress : Option ProgressOverrides → ProgressOverrides
client_progress o = record {
  enabled = some (or_else (field_of ProgressOverrides.enabled o) true);
  long_run_threshold_ms =
      some (or_else (field_of ProgressOverrides.long_run_threshold_ms o) (5 * 60 * 1000));
  interval_ms = some (or_else (field_of ProgressOverrides.interval_ms o) (5 * 60 * 1000));
  sink = some (or_else (field_of ProgressOverrides.sink o) stderr);
  command = field_of ProgressOverrides.command o;
}

-- The `runtimeConfig` of `createRuntimeClient`.
unfoldable pub client_overrides : PluginPaths → PluginConfig → Overrides
unfolding client_progress
client_overrides paths c = record {
  ledger_root = some (or_else c.ledger_root paths.ledger);
  taskflow_mirror_root = some (or_else c.taskflow_mirror_root paths.mirror);
  grant_ttl_seconds = none;
  enable_elevated = c.enable_elevated;
  elevated_allowed_commands = c.elevated_allowed_commands;
  progress_updates = some (client_progress c.progress_updates);
}

unfoldable pub client_ctx : Ctx → Variables → PluginPaths → PluginConfig → Ctx
unfolding client_overrides
client_ctx ctx vars paths c = record ctx {
  config = resolve_config ctx.env vars (client_overrides paths c);
}

-- A tool with its parameters.
pub data ToolCall : Type 0 where
  submit dry_run_of status inspect receipts_of : Option Str → ToolCall
  cancel : (run_id reason : Option Str) → ToolCall
  templates : ToolCall

pub data ToolResult : Type 0 where
  text_result : Printed → ToolResult
  template_result : List Str → ToolResult
  error_result : Failure → ToolResult

-- A path or run id that is not given makes `path.endsWith` or `join` throw.
abbrev pub given : Option Str → Result Str
given none = err not_a_text
given (some s) = ok s

-- `prepareRun` and `cancelRun` have opened the ledger before.
unfoldable pub given_on_opening : Ctx → Option Str → M Str
given_on_opening ctx none = do open_store ctx.env ctx.config.ledger_root; from_result (given none)
given_on_opening ctx (some s) = pure s

-- What a tool evaluates: a call of the client, or the list of templates.
unfoldable pub call_client :
    Ctx → PluginPaths → (Str → Result RawWorkflow) → ToolCall → M ToolResult
call_client ctx paths documents (submit path) = do
  path ← given_on_opening ctx path
  open_store ctx.env ctx.config.ledger_root
  raw ← from_result (parse_workflow_file documents path)
  m ← run_workflow ctx raw
  pure (text_result (manifest m))
call_client ctx paths documents (dry_run_of path) = do
  path ← from_result (given path)
  raw ← from_result (parse_workflow_file documents path)
  report ← dry_run ctx raw
  pure (text_result (classified report))
call_client ctx paths documents (status id) = do
  m ← get_run_status ctx id
  pure (text_result (manifest m))
call_client ctx paths documents (inspect id) = do
  report ← inspect_run ctx id
  pure (text_result (inspected report))
call_client ctx paths documents (receipts_of id) = do
  (id, found) ← get_run_receipts ctx id
  pure (text_result (receipt_list id found))
call_client ctx paths documents (cancel id reason) = do
  id ← given_on_opening ctx id
  m ← cancel_run ctx id (or_else reason (codes "operator_cancelled"))
  pure (text_result (manifest m))
call_client ctx paths documents templates = pure (template_result (paths.template ∷ []))

-- `try { return textResult(...) } catch (error) { return errorResult(...) }`
unfoldable pub caught : Result ToolResult → ToolResult
caught (ok r) = r
caught (err e) = error_result e

unfoldable pub execute_tool :
    Ctx → PluginPaths → (Str → Result RawWorkflow) → ToolCall → World → ToolResult × World
unfolding caught
execute_tool ctx paths documents call w =
    let r = call_client ctx paths documents call w in (caught r.0, r.1)
