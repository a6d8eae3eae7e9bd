-- ===== src/Run/Ended.antt =====
-- The manifest with which the loop of `resumeWorkflow` (control-plane/run-service.ts) stops, and
-- the one that the ledger then holds.
use tool_flow.Prelude.{
  ℕ, Bool, true, false, ◌&&◌, not, ◌≡◌, refl, sym, List, [], ◌∷◌, Str, Option, some, lookup, str_eq,
  is_some, if◌then◌else◌, subst, Bool-cases, inl, inr,
}
use tool_flow.Types.{
  RunState, RunManifest, Receipt, CompiledStep, PolicyArtifact, ApprovalBinding, Fields,
  is_succeeded, is_awaiting, is_elevated, Result, ok,
}
use tool_flow.World.{run_completed, World, M, After, After-bind, ◌>>=◌, ◌>>◌, now_iso, pure}
use tool_flow.Ledger.{read_approval, append_event}
use tool_flow.Bridge.{mint_step_grant, dispatch_step}
use tool_flow.Run.Manifest.{Ctx, some_step, every_step, update_step}
use tool_flow.Run.Loop.{
  Flow, next, stop, set_state, key_for, approval_hash_of, settle_step, perform_step, await_approval,
  run_step, run_batch, finish_run, persist_manifest,
}
use tool_flow.Run.Progress.{status_cases, running_manifest, started, dispatched}
use tool_flow.Run.Persist.{
  SameRun, Persisted, stamped, persist-bind, event-bind, persist_manifest-Persists,
}

-- The states in which the loop leaves a run: `succeeded` only if every step has succeeded.
pub data EndState (m : RunManifest) : Type 0 where
  all_succeeded : m.state ≡ RunState.succeeded → every_step is_succeeded m.steps ≡ true → EndState m
  has_failed : m.state ≡ RunState.failed → EndState m
  waits : m.state ≡ RunState.awaiting_approval → EndState m

-- A manifest in such a state, as the ledger holds it.
abbrev pub IsEnded : RunManifest → World → Type 0
IsEnded m w = (lookup w.ledger.manifests m.run_id ≡ some m) × EndState m

abbrev pub Stopped : Result Flow → World → Type 0
Stopped r v = (m : RunManifest) → r ≡ ok (stop m) → IsEnded m v

abbrev pub EndsRun : Result RunManifest → World → Type 0
EndsRun r v = (m : RunManifest) → r ≡ ok m → IsEnded m v

EndState-stamp : (m : RunManifest) (now : ℕ) → EndState m → EndState (stamped m now)
EndState-stamp m now (all_succeeded s e) = all_succeeded s e
EndState-stamp m now (has_failed s) = has_failed s
EndState-stamp m now (waits s) = waits s

Persisted-IsEnded :
    {m m' : RunManifest} {w v : World} → Persisted m m' w v → EndState m → IsEnded m' v
Persisted-IsEnded {m} {m'} {w} {v} p e = (
  subst (λ (z : RunManifest). lookup v.ledger.manifests z.run_id ≡ some m') (sym p.stamp) p.stored,
  subst EndState (sym p.stamp) (EndState-stamp m p.now e),
)

IsEnded-SameRun : {m : RunManifest} {w v : World} → SameRun w v → IsEnded m w → IsEnded m v
IsEnded-SameRun {m} {w} {v} s (f, e) =
    (subst (λ t. lookup t m.run_id ≡ some m) (sym s.manifests) f, e)

pub IsEnded-same : {m m' : RunManifest} (v : World) → m ≡ m' → IsEnded m v → IsEnded m' v
IsEnded-same v e i = subst (λ (z : RunManifest). IsEnded z v) e i

-- Behind the loop.
completed-EndsRun :
    (ctx : Ctx) (run_id : Str) (m : RunManifest) (final : RunState) (w : World)
    → EndState (set_state final m)
    → After EndsRun
        (persist_manifest ctx (set_state final m) >>= λ m'.
          append_event ctx.env run_id (run_completed final) >> pure m')
        w
completed-EndsRun ctx run_id m final w e =
    persist-bind ctx (set_state final m) EndsRun _ w λ m1 v p.
      event-bind ctx.env run_id (run_completed final) EndsRun (pure m1) v
        λ u s m' q. IsEnded-same u (cc (q)) (IsEnded-SameRun s (Persisted-IsEnded p e))

persisted-EndsRun :
    (ctx : Ctx) (m : RunManifest) (w : World)
    → EndState m
    → After EndsRun (persist_manifest ctx m) w
persisted-EndsRun ctx m w e m' q =
    let (m1, r, p) = persist_manifest-Persists ctx m w in
    IsEnded-same (persist_manifest ctx m w).1 (cc (r, q)) (Persisted-IsEnded p e)

final-EndState :
    (m : RunManifest)
    → EndState (
        set_state
          (if every_step is_succeeded m.steps then RunState.succeeded else RunState.failed)
          m)
unfolding set_state
final-EndState m = elim (Bool-cases (every_step is_succeeded m.steps)) [
  | inl e ↦ all_succeeded (rw e refl) e
  | inr e ↦ has_failed (rw e refl)
]

pub finish_run-EndsRun :
    (ctx : Ctx) (run_id : Str) (m : RunManifest) (w : World)
    → After EndsRun (finish_run ctx run_id m) w
unfolding finish_run
finish_run-EndsRun ctx run_id m w = elim (Bool-cases (some_step is_awaiting m.steps)) [
  | inl e ↦ rw e (
      persisted-EndsRun ctx (set_state RunState.awaiting_approval m) w
        (waits (unfold set_state in refl)))
  | inr e ↦ rw e (completed-EndsRun ctx run_id m _ w (final-EndState m))
]

-- Code in front whose outcome does not matter.
stops-bind :
    {A : Type 0} (n : M A) (f : A → M Flow) (w : World)
    → ((a : A) (v : World) → After Stopped (f a) v)
    → After Stopped (n >>= f) w
stops-bind n f w k =
    After-bind (λ r v. Unit {0}) Stopped n f w tt (λ a v u. k a v) (λ e v u m h. absurd (cc))

stop-Stopped :
    (ctx : Ctx) (m : RunManifest) (w : World)
    → EndState m
    → After Stopped (persist_manifest ctx m >>= λ m'. pure (stop m')) w
stop-Stopped ctx m w e =
    persist-bind ctx m Stopped (λ m'. pure (stop m')) w
      λ m1 v p m' q. IsEnded-same v (cc (q)) (Persisted-IsEnded p e)

module _ (ctx : Ctx) (policy : PolicyArtifact) (run_id : Str) (step : CompiledStep) where
  await_approval-Stopped :
      (m : RunManifest) (w : World) → After Stopped (await_approval ctx policy run_id step m) w
  unfolding await_approval update_step set_state
  await_approval-Stopped m w = persist-bind ctx _ Stopped _ w λ m1 v p.
      event-bind ctx.env run_id _ Stopped (pure (stop m1)) v
        λ u s m' q. IsEnded-same u (cc (q)) (IsEnded-SameRun s (Persisted-IsEnded p (waits refl)))

  settle_step-Stopped :
      (r : Receipt) (o : Option Fields) (m : RunManifest) (w : World)
      → After Stopped (settle_step ctx run_id step r o m) w
  unfolding settle_step set_state
  settle_step-Stopped r o m w = event-bind ctx.env run_id _ Stopped _ _ λ v same.
      elim (status_cases r.unsigned.status) [
        | inl e ↦
            rw e (
              stops-bind (persist_manifest ctx _) (λ m'. pure (next m')) v λ m1 u m' q. absurd (cc))
        | inr e ↦ rw e (stop-Stopped ctx _ v (has_failed refl))
      ]

  perform_step-Stopped :
      (approval : Option ApprovalBinding) (m : RunManifest) (w : World)
      → After Stopped (perform_step ctx policy run_id step approval m) w
  unfolding perform_step
  perform_step-Stopped approval m w =
      stops-bind
        (mint_step_grant ctx.env (key_for ctx step) run_id step policy ctx.config.grant_ttl_seconds
          (approval_hash_of approval))
        (λ grant. now_iso ctx.env >>= started ctx policy run_id step m grant) w
        λ grant v. stops-bind (now_iso ctx.env) (started ctx policy run_id step m grant) v λ now u.
          stops-bind (persist_manifest ctx (running_manifest m step grant.unsigned.grant_id now))
            (dispatched ctx policy run_id step grant) u
            λ m1 x.
              stops-bind (dispatch_step ctx.env ctx.allowed policy (key_for ctx step) step grant)
                (λ ro. settle_step ctx run_id step ro.0 ro.1 m1) x
                λ ro y. settle_step-Stopped ro.0 ro.1 m1 y

  run_step-Stopped :
      (m : RunManifest) (w : World) → After Stopped (run_step ctx policy run_id step m) w
  unfolding run_step
  run_step-Stopped m w =
      stops-bind (read_approval run_id step.id) _ w
        λ approval v. by_test (is_elevated step.cell && not (is_some approval)) approval v
    where
      by_test :
          (b : Bool) (approval : Option ApprovalBinding) (v : World)
          → After Stopped
              (if b
                then await_approval ctx policy run_id step m
                else perform_step ctx policy run_id step approval m)
              v
      by_test true approval v = await_approval-Stopped m v
      by_test false approval v = perform_step-Stopped approval m v

pub run_batch-Stopped :
    (ctx : Ctx) (policy : PolicyArtifact) (run_id : Str) (steps : List CompiledStep)
    (m : RunManifest) (w : World)
    → After Stopped (run_batch ctx policy run_id steps m) w
unfolding run_batch
run_batch-Stopped ctx policy run_id [] m w = λ m' h. absurd (cc)
run_batch-Stopped ctx policy run_id (step ∷ steps) m w =
    After-bind Stopped Stopped (run_step ctx policy run_id step m) _ w
      (run_step-Stopped ctx policy run_id step m w)
      (λ flow v g. by_flow flow v g (λ m1. run_batch-Stopped ctx policy run_id steps m1 v))
      (λ e v g m' h. absurd (cc))
  where
    by_flow :
        (flow : Flow) (v : World)
        → Stopped (ok flow) v
        → ((m1 : RunManifest) → After Stopped (run_batch ctx policy run_id steps m1) v)
        → After Stopped
            (elim flow [
              | stop m1 ↦ pure (stop m1)
              | next m1 ↦ run_batch ctx policy run_id steps m1
            ])
            v
    by_flow (stop m1) v g ih = g
    by_flow (next m1) v g ih = ih m1
