-- ===== src/Run/Progress.antt =====
-- What one step of the loop of `resumeWorkflow` does to the pending steps.
use tool_flow.Prelude.{
  ℕ, Bool, true, false, ◌&&◌, not, ◌≡◌, refl, sym, List, [], ◌∷◌, Str, Option, some, str_eq,
  is_some, ◌⊎◌, arith, if◌then◌else◌, subst, inl, inr,
}
use tool_flow.Types.{
  StepState, RunManifest, ReceiptStatus, Receipt, StepGrant, CompiledStep, PolicyArtifact,
  ApprovalBinding, Fields, is_elevated, Result, ok,
}
use tool_flow.World.{World, M, After, After-bind, ◌>>=◌, now_iso, pure}
use tool_flow.Ledger.{read_approval}
use tool_flow.Bridge.{mint_step_grant, dispatch_step}
use tool_flow.Run.Manifest.{
  Ctx, Steps, update_step, apply_receipt, step_state_of, reconcile_receipt,
}
use tool_flow.Run.Loop.{
  Flow, next, stop, set_step_state, key_for, approval_hash_of, settle_step, perform_step,
  await_approval, run_step, run_batch, persist_manifest,
}
use tool_flow.Run.Persist.{Persisted, stamped, persist-bind, event-bind}
use tool_flow.Run.Pending.{pending_at, NoMorePending, modify_step-pending, modify_step-not_pending}

-- What a step, a batch or a receipt does to the manifest if the loop goes on.
abbrev pub Goes : (RunManifest → Type 0) → Result Flow → World → Type 0
Goes P r v = (m : RunManifest) → r ≡ ok (next m) → P m

-- The step is no longer pending and no other step has become so.
abbrev pub Advanced : RunManifest → Str → RunManifest → Type 0
Advanced old id m = NoMorePending old.steps m.steps × (pending_at m.steps id ≡ false)

reconcile_receipt-pending :
    (m : RunManifest) (r : Receipt) → NoMorePending m.steps (reconcile_receipt m r).steps
unfolding reconcile_receipt update_step apply_receipt step_state_of
reconcile_receipt-pending m r x h =
    modify_step-pending m.steps r.unsigned.step_id (apply_receipt r) x
      (λ s e. absurd (ground arith)) h

pub status_cases : (s : ReceiptStatus) → (s ≡ ReceiptStatus.succeeded) ⊎ (s ≡ ReceiptStatus.failed)
status_cases ReceiptStatus.succeeded = inl refl
status_cases ReceiptStatus.failed = inr refl

-- The manifest that `settleStep` writes for a success.
abbrev settled_manifest : Ctx → Str → CompiledStep → Receipt → RunManifest → RunManifest
settled_manifest ctx run_id step r m =
    reconcile_receipt
      (update_step m step.id
        λ s. record s { output_path = some (ctx.env.artifact_path run_id step.id) })
      r

settled_manifest-pending :
    (ctx : Ctx) (run_id : Str) (step : CompiledStep) (r : Receipt) (m : RunManifest)
    → NoMorePending m.steps (settled_manifest ctx run_id step r m).steps
unfolding update_step
settled_manifest-pending ctx run_id step r m x h =
    modify_step-pending m.steps step.id _ x (λ s e. e) (reconcile_receipt-pending _ r x h)

Persisted-pending :
    (old : RunManifest) {m m' m'' : RunManifest} {w v : World}
    → Persisted m m' w v
    → Path (Result Flow) (ok (next m')) (ok (next m''))
    → NoMorePending old.steps m.steps
    → NoMorePending old.steps m''.steps
Persisted-pending old {m} {m'} {m''} p q h =
    let same : m.steps ≡ m''.steps = cc (p.stamp, q) in
    subst (λ (t : Steps). NoMorePending old.steps t) same h

settle_step-Goes :
    (ctx : Ctx) (run_id : Str) (step : CompiledStep) (r : Receipt) (o : Option Fields)
    (m : RunManifest) (w : World)
    → After (Goes (λ m'. NoMorePending m.steps m'.steps)) (settle_step ctx run_id step r o m) w
unfolding settle_step
settle_step-Goes ctx run_id step r o m w = event-bind ctx.env run_id _ (Goes P) _ _ λ v same.
    elim (status_cases r.unsigned.status) [
      | inl e ↦ rw e (
          persist-bind ctx (settled_manifest ctx run_id step r m) (Goes P) _ v
            λ m' u p m'' q. Persisted-pending m p q (settled_manifest-pending ctx run_id step r m))
      | inr e ↦ rw e (persist-bind ctx _ (Goes P) _ v λ m' u p m'' q. absurd (cc))
    ]
  where
    P : RunManifest → Type 0
    P m' = NoMorePending m.steps m'.steps

-- Code in front whose outcome does not matter.
Goes-bind :
    {A : Type 0} (P : RunManifest → Type 0) (n : M A) (f : A → M Flow) (w : World)
    → ((a : A) (v : World) → After (Goes P) (f a) v)
    → After (Goes P) (n >>= f) w
Goes-bind P n f w k =
    After-bind (λ r v. Unit {0}) (Goes P) n f w tt (λ a v u. k a v) (λ e v u m h. absurd (cc))

-- The manifest while the step is carried out.
abbrev pub running_manifest : RunManifest → CompiledStep → Str → ℕ → RunManifest
running_manifest m step grant_id now =
    update_step (update_step m step.id (set_step_state StepState.grant_issued)) step.id
      λ s. record s { grant_id = some grant_id; state = StepState.running; started_at = some now }

running_manifest-Advanced :
    (m : RunManifest) (step : CompiledStep) (grant_id : Str) (now : ℕ)
    → Advanced m step.id (running_manifest m step grant_id now)
unfolding update_step
running_manifest-Advanced m step grant_id now = (
  λ x h.
      modify_step-pending m.steps step.id _ x (λ s e. absurd (cc e))
        (modify_step-pending _ step.id _ x (λ s e. absurd (cc e)) h),
  modify_step-not_pending _ step.id _ (λ s. refl),
)

Advanced-settled :
    (old m m' : RunManifest) (id : Str)
    → Advanced old id m
    → NoMorePending m.steps m'.steps
    → Advanced old id m'
Advanced-settled old m m' id a n = (λ x h. a.0 x (n x h), not_pending a.1 (n id))
  where
    not_pending : {b c : Bool} → b ≡ false → (c ≡ true → b ≡ true) → c ≡ false
    not_pending {b} {c} e k = ground arith

module _ (ctx : Ctx) (policy : PolicyArtifact) (run_id : Str) (step : CompiledStep) where
  abbrev pub dispatched : StepGrant → RunManifest → M Flow
  dispatched grant m =
      dispatch_step ctx.env ctx.allowed policy (key_for ctx step) step grant >>= λ ro.
      settle_step ctx run_id step ro.0 ro.1 m

  abbrev pub started : RunManifest → StepGrant → ℕ → M Flow
  started m grant now =
      persist_manifest ctx (running_manifest m step grant.unsigned.grant_id now)
      >>= dispatched grant

  started-Goes :
      (m : RunManifest) (grant : StepGrant) (now : ℕ) (w : World)
      → After (Goes (Advanced m step.id)) (started m grant now) w
  started-Goes m grant now w =
      persist-bind ctx (running_manifest m step grant.unsigned.grant_id now)
        (Goes (Advanced m step.id)) (dispatched grant) w
        λ m1 x p.
          Goes-bind (Advanced m step.id)
            (dispatch_step ctx.env ctx.allowed policy (key_for ctx step) step grant)
            (λ ro. settle_step ctx run_id step ro.0 ro.1 m1) x
            λ ro y m2 q.
              Advanced-settled m m1 m2 step.id (persisted-Advanced m1 p.now p.stamp)
                (settle_step-Goes ctx run_id step ro.0 ro.1 m1 y m2 q)
    where
      persisted-Advanced :
          (m1 : RunManifest) (t : ℕ)
          → m1 ≡ stamped (running_manifest m step grant.unsigned.grant_id now) t
          → Advanced m step.id m1
      persisted-Advanced m1 t e =
          subst (Advanced m step.id) (sym e)
            (running_manifest-Advanced m step grant.unsigned.grant_id now)

  perform_step-Goes :
      (approval : Option ApprovalBinding) (m : RunManifest) (w : World)
      → After (Goes (Advanced m step.id)) (perform_step ctx policy run_id step approval m) w
  unfolding perform_step
  perform_step-Goes approval m w =
      Goes-bind (Advanced m step.id)
        (mint_step_grant ctx.env (key_for ctx step) run_id step policy ctx.config.grant_ttl_seconds
          (approval_hash_of approval))
        (λ grant. now_iso ctx.env >>= started m grant) w
        λ grant v.
          Goes-bind (Advanced m step.id) (now_iso ctx.env) (started m grant) v
            λ now u. started-Goes m grant now u

await_approval-Goes :
    (P : RunManifest → Type 0) (ctx : Ctx) (policy : PolicyArtifact) (run_id : Str)
    (step : CompiledStep) (m : RunManifest) (w : World)
    → After (Goes P) (await_approval ctx policy run_id step m) w
unfolding await_approval
await_approval-Goes P ctx policy run_id step m w =
    persist-bind ctx _ (Goes P) _ w
      λ m1 v p. event-bind ctx.env run_id _ (Goes P) _ v λ u s m2 q. absurd (cc)

run_step-Goes :
    (ctx : Ctx) (policy : PolicyArtifact) (run_id : Str) (step : CompiledStep) (m : RunManifest)
    (w : World)
    → After (Goes (Advanced m step.id)) (run_step ctx policy run_id step m) w
unfolding run_step
run_step-Goes ctx policy run_id step m w =
    Goes-bind (Advanced m step.id) (read_approval run_id step.id) _ w
      λ (approval : Option ApprovalBinding) v.
        by_test (is_elevated step.cell && not (is_some approval)) approval v
  where
    by_test :
        (b : Bool) (approval : Option ApprovalBinding) (v : World)
        → After
            (Goes (Advanced m step.id))
            (if b
              then await_approval ctx policy run_id step m
              else perform_step ctx policy run_id step approval m)
            v
    by_test true approval v = await_approval-Goes (Advanced m step.id) ctx policy run_id step m v
    by_test false approval v = perform_step-Goes ctx policy run_id step approval m v

run_batch-Goes :
    (ctx : Ctx) (policy : PolicyArtifact) (run_id : Str) (steps : List CompiledStep)
    (m : RunManifest) (w : World)
    → After (Goes (λ m'. NoMorePending m.steps m'.steps)) (run_batch ctx policy run_id steps m) w
unfolding run_batch
run_batch-Goes ctx policy run_id [] m w = λ m' h. go m' (cc (h))
  where
    go : (m' : RunManifest) → m ≡ m' → NoMorePending m.steps m'.steps
    go m' e = subst (λ (z : RunManifest). NoMorePending m.steps z.steps) e (λ x p. p)
run_batch-Goes ctx policy run_id (step ∷ steps) m w =
    After-bind (Goes (Advanced m step.id)) (Goes P) (run_step ctx policy run_id step m) _ w
      (run_step-Goes ctx policy run_id step m w)
      (λ flow v g. by_flow flow v (λ m1. run_batch-Goes ctx policy run_id steps m1 v) g)
      (λ e v g m' h. absurd (cc))
  where
    P : RunManifest → Type 0
    P m' = NoMorePending m.steps m'.steps

    by_flow :
        (flow : Flow) (v : World)
        → ((m1 : RunManifest)
            → After
                (Goes (λ m'. NoMorePending m1.steps m'.steps))
                (run_batch ctx policy run_id steps m1)
                v)
        → Goes (Advanced m step.id) (ok flow) v
        → After
            (Goes P)
            (elim flow [
              | stop m1 ↦ pure (stop m1)
              | next m1 ↦ run_batch ctx policy run_id steps m1
            ])
            v
    by_flow (stop m1) v ih g = λ m' h. absurd (cc)
    by_flow (next m1) v ih g = λ m' h x p. (g m1 refl).0 x (ih m1 m' h x p)

-- A batch that is not empty leaves its first step done.
pub run_batch-Advanced :
    (ctx : Ctx) (policy : PolicyArtifact) (run_id : Str) (step : CompiledStep)
    (steps : List CompiledStep) (m : RunManifest) (w : World)
    → After (Goes (Advanced m step.id)) (run_batch ctx policy run_id (step ∷ steps) m) w
unfolding run_batch
run_batch-Advanced ctx policy run_id step steps m w =
    After-bind (Goes (Advanced m step.id)) (Goes (Advanced m step.id))
      (run_step ctx policy run_id step m) _ w (run_step-Goes ctx policy run_id step m w) by_flow
      (λ e v g m' h. absurd (cc))
  where
    by_flow :
        (flow : Flow) (v : World)
        → Goes (Advanced m step.id) (ok flow) v
        → After
            (Goes (Advanced m step.id))
            (elim flow [
              | stop m1 ↦ pure (stop m1)
              | next m1 ↦ run_batch ctx policy run_id steps m1
            ])
            v
    by_flow (stop m1) v g = λ m' h. absurd (cc)
    by_flow (next m1) v g = λ m' h.
        Advanced-settled m m1 m' step.id (g m1 refl)
          (run_batch-Goes ctx policy run_id steps m1 v m' h)
