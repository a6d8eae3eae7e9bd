-- ===== src/Run/Recovery.antt =====
-- recovery-service.ts: what `recover` does with the steps of an interrupted run.
use tool_flow.Prelude.{
  Bool, true, false, List, [], ◌∷◌, Str, none, some, lookup, put, str_eq, length, if◌then◌else◌,
}
use tool_flow.Types.{
  RunState, StepState, GrantState, ReplayClass, review_required, StepManifest, RunManifest,
  GrantRecord, CompiledStep, is_quarantined, is_awaiting, is_succeeded, is_failed, missing_file,
  missing_entry,
}
use tool_flow.Env.{Env}
use tool_flow.World.{run_recovered, M, ◌>>=◌, ◌>>◌, pure, require, read_ledger, now_iso}
use tool_flow.Ledger.{
  read_grant, expire_grant, void_grant, try_read_receipt, read_manifest, write_manifest,
  append_event,
}
use tool_flow.Mirror.{sync_taskflow_mirror}
use tool_flow.Bridge.{is_expired}
use tool_flow.Policy.{replay_decision}
use tool_flow.Run.Manifest.{Ctx, apply_receipt, some_step, every_step}

pub data Disposition : Type 0 where
  unchanged reconciled_from_receipt requeued quarantined : Disposition

pub record RecoveryStepResult : Type 0 where
  pub step_id : Str
  pub previous_state : StepState
  pub next_state : StepState
  pub disposition : Disposition

-- `["pending", ..., "skipped"].includes(step.state)`
unfoldable pub is_settled : StepState → Bool
is_settled StepState.pending = true
is_settled StepState.awaiting_approval = true
is_settled StepState.quarantined = true
is_settled StepState.succeeded = true
is_settled StepState.failed = true
is_settled StepState.skipped = true
is_settled _ = false

-- `replayDecision(node.replayClass) === "review_required"`
unfoldable pub needs_review : ReplayClass → Bool
unfolding replay_decision
needs_review c = elim (replay_decision c) [ review_required ↦ true | _ ↦ false ]

unfoldable pub clear_step_for_replay : StepManifest → StepManifest
clear_step_for_replay s = record s { state = StepState.pending; grant_id = none; started_at = none }

unfoldable pub quarantine : StepManifest → StepManifest
quarantine s = record s { state = StepState.quarantined }

-- A step's new entry and what became of it.
abbrev pub Recovered : Type 0
Recovered = StepManifest × Disposition

-- An interrupted step with no grant.
unfoldable pub recover_ungranted : ReplayClass → StepManifest → Recovered
unfolding needs_review quarantine
recover_ungranted c s =
    if needs_review c
    then (quarantine s, quarantined)
    else (record s { state = StepState.pending }, requeued)

-- An unused grant is closed, so that it cannot be used any more.
unfoldable pub close_grant : Env → Str → GrantRecord → M (Unit {0})
unfolding now_iso is_expired
close_grant env run_id rec = do
  now ← now_iso env
  if is_expired rec.grant.unsigned.expires_at now
      then expire_grant run_id rec.grant.unsigned.grant_id
      else void_grant run_id rec.grant.unsigned.grant_id

-- An interrupted step whose grant led to no receipt.
unfoldable pub recover_granted : Env → Str → ReplayClass → GrantRecord → StepManifest → M Recovered
unfolding clear_step_for_replay quarantine needs_review
recover_granted env run_id c rec s = elim rec.state [
  | GrantState.issued ↦ do close_grant env run_id rec; pure (clear_step_for_replay s, requeued)
  | GrantState.consumed ↦
      pure (
        if needs_review c then (quarantine s, quarantined) else (clear_step_for_replay s, requeued))
  | GrantState.expired ↦ pure (clear_step_for_replay s, requeued)
  | GrantState.void ↦ pure (clear_step_for_replay s, requeued)
]

-- An interrupted step with a grant id.
unfoldable pub recover_with_grant : Env → Str → ReplayClass → Str → StepManifest → M Recovered
recover_with_grant env run_id c grant_id s = do
  rec ← read_grant run_id grant_id
  receipt ← try_read_receipt run_id rec.receipt_id
  elim receipt [
    | some r ↦ pure (apply_receipt r s, reconciled_from_receipt)
    | none ↦ recover_granted env run_id c rec s
  ]

-- An interrupted step: by its receipt, else by its grant. An empty grant id is none.
unfoldable pub recover_interrupted : Env → Str → ReplayClass → StepManifest → M Recovered
recover_interrupted env run_id c s = do
  receipt ← try_read_receipt run_id s.receipt_id
  elim receipt [
    | some r ↦ pure (apply_receipt r s, reconciled_from_receipt)
    | none ↦ elim s.grant_id [
      | none ↦ pure (recover_ungranted c s)
      | some g ↦ elim g [
        | [] ↦ pure (recover_ungranted c s)
        | d ∷ id ↦ recover_with_grant env run_id c (d ∷ id) s
      ]
    ]
  ]

unfoldable pub recover_entry : Env → Str → ReplayClass → StepManifest → M Recovered
unfolding is_settled
recover_entry env run_id c s =
    if is_settled s.state then pure (s, unchanged) else recover_interrupted env run_id c s

unfoldable pub recover_step :
    Env → RunManifest → CompiledStep → M (RunManifest × RecoveryStepResult)
recover_step env m node = do
  s ← require (missing_entry node.id) (lookup m.steps node.id)
  (s', d) ← recover_entry env m.run_id node.replay_class s
  pure (
    record m { steps = put m.steps node.id s' },
    record { step_id = node.id; previous_state = s.state; next_state = s'.state; disposition = d },
  )

-- `graph.nodes.map((node) => recoverStep(store, manifest, node))`
unfoldable pub recover_steps :
    Env → List CompiledStep → RunManifest → M (RunManifest × List RecoveryStepResult)
recover_steps env [] m = pure (m, [])
recover_steps env (n ∷ ns) m = do
  (m, r) ← recover_step env m n
  (m, rs) ← recover_steps env ns m
  pure (m, r ∷ rs)

-- `["pending", "grant_issued", "running"].includes(step.state)`
unfoldable pub is_open : StepState → Bool
is_open StepState.pending = true
is_open StepState.grant_issued = true
is_open StepState.running = true
is_open _ = false

unfoldable pub derive_run_state : RunManifest → RunState
unfolding some_step every_step is_open
derive_run_state m =
    if some_step is_quarantined m.steps
    then RunState.quarantined
    else if some_step is_awaiting m.steps
    then RunState.awaiting_approval
    else if every_step is_succeeded m.steps
    then RunState.succeeded
    else if some_step is_failed m.steps
    then RunState.failed
    else if some_step is_open m.steps
    then RunState.ready
    else m.state

-- The new manifest and the report on the steps. The mirror is that of the environment alone:
-- `syncTaskflowMirror(store, manifest)` is called with no configuration.
unfoldable pub recover_run : Ctx → Str → M (RunManifest × List RecoveryStepResult)
recover_run ctx run_id = do
  m ← read_manifest run_id
  l ← read_ledger
  graph ← require missing_file (lookup l.graphs m.run_id)
  let previous = m.state
  (m, steps) ← recover_steps ctx.env graph.nodes m
  m ← write_manifest ctx.env (record m { state = derive_run_state m })
  _ ← sync_taskflow_mirror ctx.env ctx.ambient m
  append_event ctx.env m.run_id (run_recovered previous m.state (length steps))
  pure (m, steps)
