-- ===== src/Run/Manifest.antt =====
-- scheduler.ts and receipt-service.ts: reading and updating the steps of a manifest.
use tool_flow.Prelude.{
  Bool, false, ◌&&◌, List, [], ◌∷◌, Str, Option, none, some, Table, lookup, put, str_eq, all, any,
  if◌then◌else◌,
}
use tool_flow.Types.{
  StepState, StepManifest, RunManifest, ReceiptStatus, Receipt, CompiledStep, is_pending,
  is_succeeded, Result, ok, err, ◌>>=◌, missing_entry,
}
use tool_flow.Env.{Env}
use tool_flow.Config.{RuntimeConfig}
use tool_flow.Crypto.{RuntimeKey}

-- What a command of the control plane runs with: the configuration that it was given, the one that
-- `resolveConfig()` makes of the environment alone, the commands that TOOLFLOW_ELEVATED_ALLOW
-- names, and the two signing keys.
pub record Ctx : Type 0 where
  pub env : Env
  pub config : RuntimeConfig
  pub ambient : RuntimeConfig
  pub allowed : List Str
  pub ordinary_key : RuntimeKey
  pub elevated_key : RuntimeKey

abbrev pub Steps : Type 0
Steps = Table Str StepManifest

-- `manifest.steps[dep]?.state === "succeeded"`
unfoldable pub dep_succeeded : Steps → Str → Bool
dep_succeeded steps dep = elim (lookup steps dep) [ none ↦ false | some s ↦ is_succeeded s.state ]

-- A node with no entry makes `manifest.steps[node.id].state` throw.
unfoldable pub is_runnable : Steps → CompiledStep → Result Bool
unfolding dep_succeeded
is_runnable steps n = elim (lookup steps n.id) [
  | none ↦ err (missing_entry n.id)
  | some s ↦ ok (is_pending s.state && all (dep_succeeded steps) n.depends_on)
]

unfoldable pub next_runnable_steps : List CompiledStep → Steps → Result (List CompiledStep)
next_runnable_steps [] steps = ok []
next_runnable_steps (n ∷ ns) steps = do
  runnable ← is_runnable steps n
  rest ← next_runnable_steps ns steps
  ok (if runnable then n ∷ rest else rest)

-- An assignment to fields of `manifest.steps[id]`. Its callers have read the entry before, so the
-- exception for a missing one is theirs.
unfoldable pub modify_step : Steps → Str → (StepManifest → StepManifest) → Steps
modify_step steps id f = elim (lookup steps id) [ none ↦ steps | some s ↦ put steps id (f s) ]

unfoldable pub update_step : RunManifest → Str → (StepManifest → StepManifest) → RunManifest
unfolding modify_step
update_step m id f = record m { steps = modify_step m.steps id f }

unfoldable pub step_state_of : ReceiptStatus → StepState
step_state_of ReceiptStatus.succeeded = StepState.succeeded
step_state_of ReceiptStatus.failed = StepState.failed

-- `if (receipt.error) step.error = receipt.error`: an absent or empty text changes nothing.
unfoldable pub error_or : Option Str → Option Str → Option Str
error_or (some (c ∷ s)) old = some (c ∷ s)
error_or _ old = old

unfoldable pub apply_receipt : Receipt → StepManifest → StepManifest
unfolding step_state_of error_or
apply_receipt r s = record s {
  state = step_state_of r.unsigned.status;
  receipt_id = some r.unsigned.receipt_id;
  ended_at = some r.unsigned.ended_at;
  error = error_or r.unsigned.error s.error;
}

unfoldable pub reconcile_receipt : RunManifest → Receipt → RunManifest
unfolding update_step apply_receipt
reconcile_receipt m r = update_step m r.unsigned.step_id (apply_receipt r)

-- `Object.values(manifest.steps).some(...)` and `.every(...)`
unfoldable pub some_step : (StepState → Bool) → Steps → Bool
some_step p steps = any (λ e. p e.1.state) steps

unfoldable pub every_step : (StepState → Bool) → Steps → Bool
every_step p steps = all (λ e. p e.1.state) steps
