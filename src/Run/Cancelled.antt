-- ===== src/Run/Cancelled.antt =====
-- What `cancelRun` (control-plane/run-service.ts) does to a run.
use tool_flow.Prelude.{
  Bool, true, false, ◌≡◌, refl, sym, ◌∙◌, ap, [], ◌∷◌, Str, some, Table, lookup, str_eq, ◌⊎◌, inl,
  inr, Bool-cases, arith, subst,
}
use tool_flow.Types.{RunState, StepState, StepManifest, RunManifest, Result, ok}
use tool_flow.Env.{Env}
use tool_flow.World.{World, run_cancelled, After, ◌>>=◌, ◌>>◌, pure}
use tool_flow.Ledger.{open_store, read_manifest, append_event}
use tool_flow.Run.Manifest.{Ctx, Steps, some_step}
use tool_flow.Run.Loop.{persist_manifest}
use tool_flow.Run.Operator.{
  is_terminal, is_cancellable, cancel_step, cancel_steps, cancel_manifest, cancel_run,
}
use tool_flow.Run.Persist.{SameFiles, SameFiles-trans, SameRun, Persisted, persist-bind, event-bind}

-- A step that has not ended: it is pending, awaits approval, has a grant or is running.
abbrev pub has_not_ended : StepState → Bool
has_not_ended StepState.pending = true
has_not_ended StepState.awaiting_approval = true
has_not_ended StepState.grant_issued = true
has_not_ended StepState.running = true
has_not_ended StepState.succeeded = false
has_not_ended StepState.failed = false
has_not_ended StepState.cancelled = false
has_not_ended StepState.skipped = false
has_not_ended StepState.quarantined = false

-- A run that has succeeded or failed, was rejected or is cancelled already.
abbrev pub is_over : RunState → Bool
is_over RunState.succeeded = true
is_over RunState.failed = true
is_over RunState.rejected = true
is_over RunState.cancelled = true
is_over RunState.created = false
is_over RunState.compiled = false
is_over RunState.ready = false
is_over RunState.running = false
is_over RunState.awaiting_approval = false
is_over RunState.quarantined = false

-- A run's manifest after it is cancelled: every step has ended, and those that had are as they were.
pub record IsCancelled (old m : RunManifest) (w v : World) : Type 0 where
  pub state : m.state ≡ RunState.cancelled
  pub same_run : m.run_id ≡ old.run_id
  pub stopped : some_step has_not_ended m.steps ≡ false
  pub kept :
      (id : Str) (s : StepManifest)
      → lookup old.steps id ≡ some s
      → has_not_ended s.state ≡ false
      → lookup m.steps id ≡ some s
  pub stored : lookup v.ledger.manifests m.run_id ≡ some m
  pub files : SameFiles w v

is_cancellable_iff : (s : StepState) → is_cancellable s ≡ has_not_ended s
unfolding is_cancellable
is_cancellable_iff s = ground arith

is_terminal_iff : (s : RunState) → is_terminal s ≡ is_over s
unfolding is_terminal
is_terminal_iff s = ground arith

cancel_steps-stopped :
    (reason : Str) (steps : Steps) → some_step has_not_ended (cancel_steps reason steps) ≡ false
unfolding some_step cancel_steps cancel_step
cancel_steps-stopped reason [] = refl
cancel_steps-stopped reason ((id, s) ∷ t) =
    ground (arith, cancel_steps-stopped reason t, is_cancellable_iff s.state)

cancel_steps-kept :
    (reason : Str) (steps : Steps) (id : Str) (s : StepManifest)
    → lookup steps id ≡ some s
    → has_not_ended s.state ≡ false
    → lookup (cancel_steps reason steps) id ≡ some s
unfolding cancel_steps cancel_step lookup
cancel_steps-kept reason [] id s h e = absurd (cc)
cancel_steps-kept reason ((j, x) ∷ t) id s h e =
    ground (arith, cancel_steps-kept reason t id s, is_cancellable_iff x.state)

cancel_manifest-IsCancelled :
    (old m : RunManifest) (reason : Str) {w u v : World}
    → Persisted (cancel_manifest reason old) m w u
    → SameRun u v
    → IsCancelled old m w v
unfolding cancel_manifest
cancel_manifest-IsCancelled old m reason {w} {u} {v} p s =
    let same_steps : m.steps ≡ cancel_steps reason old.steps =
      ap (λ (z : RunManifest). z.steps) p.stamp in
    let same_run : m.run_id ≡ old.run_id = ap (λ (z : RunManifest). z.run_id) p.stamp in
    record {
      state = ap (λ (z : RunManifest). z.state) p.stamp;
      same_run = same_run;
      stopped = ap (some_step has_not_ended) same_steps ∙ cancel_steps-stopped reason old.steps;
      kept = λ id x h e.
          ap (λ (z : Steps). lookup z id) same_steps ∙ cancel_steps-kept reason old.steps id x h e;
      stored =
          subst (λ k. lookup v.ledger.manifests k ≡ some m) (sym same_run)
            (ap (λ (t : Table Str RunManifest). lookup t old.run_id) s.manifests ∙ p.stored);
      files = SameFiles-trans p.files s.files;
    }

-- After `cancelRun` has returned for a run of the ledger that is not over.
abbrev Cancels : RunManifest → World → Result RunManifest → World → Type 0
Cancels old w r v = (m : RunManifest) × (r ≡ ok m) × IsCancelled old m w v

cancel_open :
    (ctx : Ctx) (old : RunManifest) (reason : Str) (w : World)
    → After
        (Cancels old w)
        (persist_manifest ctx (cancel_manifest reason old) >>= λ m.
          append_event ctx.env m.run_id (run_cancelled reason) >> pure m)
        w
cancel_open ctx old reason w =
    persist-bind ctx (cancel_manifest reason old) (Cancels old w) _ w λ m u p.
      event-bind ctx.env m.run_id (run_cancelled reason) (Cancels old w) (pure m) u
        λ v s. (m, refl, cancel_manifest-IsCancelled old m reason p s)

-- Opening the ledger leaves the files.
IsCancelled-opened :
    (env : Env) (root : Str) {old m : RunManifest} {w v : World}
    → IsCancelled old m (open_store env root w).1 v
    → IsCancelled old m w v
unfolding open_store
IsCancelled-opened env root p = record {
  state = p.state;
  same_run = p.same_run;
  stopped = p.stopped;
  kept = p.kept;
  stored = p.stored;
  files = record {
    graphs = p.files.graphs;
    policies = p.files.policies;
    grants = p.files.grants;
    receipts = p.files.receipts;
    approvals = p.files.approvals;
  };
}

-- `cancelRun` on a run of the ledger never fails. A run that has succeeded or failed, was rejected or
-- is cancelled is returned as it is, and no file is
-- written. Any other run is stored in state
-- `cancelled`, with no step left that is pending, awaits approval, has a grant or is running, the
-- other steps as they were, and no grant, receipt or approval touched.
pub cancel_run-Cancels :
    (ctx : Ctx) (run_id reason : Str) (w : World) (old : RunManifest)
    → lookup w.ledger.manifests run_id ≡ some old
    → ((is_over old.state ≡ true)
        × (cancel_run ctx run_id reason w
            ≡ (ok old, (open_store ctx.env ctx.config.ledger_root w).1)))
      ⊎ ((is_over old.state ≡ false)
          × ((m : RunManifest) × ((cancel_run ctx run_id reason w).0 ≡ ok m)
              × IsCancelled old m w (cancel_run ctx run_id reason w).1))
unfolding cancel_run read_manifest open_store
cancel_run-Cancels ctx run_id reason w old h = elim (Bool-cases (is_over old.state)) [
  | inl e ↦ inl (e, rw (h, is_terminal_iff old.state, e))
  | inr e ↦
      let (m, r, p) = cancel_open ctx old reason (open_store ctx.env ctx.config.ledger_root w).1 in
      inr (
        e,
        rw (h, is_terminal_iff old.state, e)
            (m, r, IsCancelled-opened ctx.env ctx.config.ledger_root p),
      )
]
