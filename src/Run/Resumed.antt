-- ===== src/Run/Resumed.antt =====
-- What `resumeWorkflow` returns.
use tool_flow.Prelude.{
  ℕ, zero, suc, ◌≡◌, refl, List, [], ◌∷◌, Str, Option, none, some, lookup, str_eq, length, ◌⊎◌, inl,
  inr,
}
use tool_flow.Types.{
  RunState, RunManifest, CompiledStep, CompiledGraph, PolicyArtifact, Result, ok, Failure,
}
use tool_flow.World.{World, M, After, After-bind, ◌>>=◌, from_result, pure}
use tool_flow.Ledger.{open_store}
use tool_flow.Run.Manifest.{Ctx, next_runnable_steps}
use tool_flow.Run.Loop.{
  Flow, next, stop, set_state, run_batch, finish_run, run_rounds, persist_manifest,
}
use tool_flow.Types.{missing_file, out_of_fuel, run_quarantined}
use tool_flow.World.{require, throw}
use tool_flow.Run.Ended.{
  IsEnded, IsEnded-same, Stopped, EndsRun, finish_run-EndsRun, run_batch-Stopped,
}
use tool_flow.Run.Operator.{load_for_resume, drive, resume_workflow}

abbrev EndsLoop : Result (Option RunManifest) → World → Type 0
EndsLoop r v = (m : RunManifest) → r ≡ ok (some m) → IsEnded m v

run_rounds-EndsLoop :
    (ctx : Ctx) (g : CompiledGraph) (policy : PolicyArtifact) (run_id : Str) (fuel : ℕ)
    (m : RunManifest) (w : World)
    → After EndsLoop (run_rounds ctx g policy run_id fuel m) w
unfolding run_rounds
run_rounds-EndsLoop ctx g policy run_id zero m w = λ m' h. absurd (cc)
run_rounds-EndsLoop ctx g policy run_id (suc fuel) m w =
    After-bind (λ r v. Unit {0}) EndsLoop (from_result (next_runnable_steps g.nodes m.steps)) _ w tt
      (λ runnable v e.
        by_batch runnable v (λ m1 u. run_rounds-EndsLoop ctx g policy run_id fuel m1 u))
      (λ e v x m' h. absurd (cc))
  where
    by_flow :
        (flow : Flow) (v : World)
        → ((m1 : RunManifest) (u : World)
            → After EndsLoop (run_rounds ctx g policy run_id fuel m1) u)
        → Stopped (ok flow) v
        → After EndsLoop
            (elim flow [
              | stop m1 ↦ pure (some m1)
              | next m1 ↦ run_rounds ctx g policy run_id fuel m1
            ])
            v
    by_flow (stop m1) v ih g = λ m' h. IsEnded-same v (cc (h)) (g m1 refl)
    by_flow (next m1) v ih g = ih m1 v

    by_batch :
        (runnable : List CompiledStep) (v : World)
        → ((m1 : RunManifest) (u : World)
            → After EndsLoop (run_rounds ctx g policy run_id fuel m1) u)
        → After EndsLoop
            (elim runnable [
              | [] ↦ finish_run ctx run_id m >>= λ m1. pure (some m1)
              | step ∷ steps ↦ run_batch ctx policy run_id (step ∷ steps) m >>= λ flow. elim flow [
                | stop m1 ↦ pure (some m1)
                | next m1 ↦ run_rounds ctx g policy run_id fuel m1
              ]
            ])
            v
    by_batch [] v ih =
        After-bind EndsRun EndsLoop (finish_run ctx run_id m) _ v
          (finish_run-EndsRun ctx run_id m v) (λ m1 u e m' h. IsEnded-same u (cc (h)) (e m1 refl))
          (λ f u e m' h. absurd (cc))
    by_batch (step ∷ steps) v ih =
        After-bind Stopped EndsLoop (run_batch ctx policy run_id (step ∷ steps) m) _ v
          (run_batch-Stopped ctx policy run_id (step ∷ steps) m v) (λ flow u g. by_flow flow u ih g)
          (λ f u g m' h. absurd (cc))

require-EndsRun :
    (o : Option RunManifest) (f : Failure) (v : World)
    → EndsLoop (ok o) v
    → After EndsRun (require f o) v
require-EndsRun none f v e = λ m h. absurd (cc)
require-EndsRun (some m1) f v e = λ m h. IsEnded-same v (cc (h)) (e m1 refl)

ends-bind :
    {A : Type 0} (n : M A) (f : A → M RunManifest) (w : World)
    → ((a : A) (v : World) → After EndsRun (f a) v)
    → After EndsRun (n >>= f) w
ends-bind n f w k =
    After-bind (λ r v. Unit {0}) EndsRun n f w tt (λ a v u. k a v) (λ e v u m h. absurd (cc))

abbrev drive_rounds : Ctx → CompiledGraph → PolicyArtifact → RunManifest → M RunManifest
drive_rounds ctx g policy m =
    run_rounds ctx g policy m.run_id (suc (length g.nodes)) m >>= require out_of_fuel

abbrev drive_with : Ctx → RunManifest → CompiledGraph → PolicyArtifact → M RunManifest
drive_with ctx m g policy =
    persist_manifest ctx (set_state RunState.running m) >>= drive_rounds ctx g policy

drive_rounds-EndsRun :
    (ctx : Ctx) (g : CompiledGraph) (policy : PolicyArtifact) (m : RunManifest) (w : World)
    → After EndsRun (drive_rounds ctx g policy m) w
drive_rounds-EndsRun ctx g policy m w =
    After-bind EndsLoop EndsRun (run_rounds ctx g policy m.run_id (suc (length g.nodes)) m)
      (require out_of_fuel) w (run_rounds-EndsLoop ctx g policy m.run_id (suc (length g.nodes)) m w)
      (λ o v e. require-EndsRun o out_of_fuel v e) (λ f v e m' h. absurd (cc))

drive-EndsRun : (ctx : Ctx) (m : RunManifest) (w : World) → After EndsRun (drive ctx m) w
unfolding drive
drive-EndsRun ctx m w =
    ends-bind (require missing_file (lookup w.ledger.graphs m.run_id))
      (λ g. require missing_file (lookup w.ledger.policies m.run_id) >>= drive_with ctx m g) w
      λ g v.
        ends-bind (require missing_file (lookup w.ledger.policies m.run_id)) (drive_with ctx m g) v
          λ policy u.
            ends-bind (persist_manifest ctx (set_state RunState.running m))
              (drive_rounds ctx g policy) u λ m1 x. drive_rounds-EndsRun ctx g policy m1 x

-- A run that has ended, or one that was cancelled or rejected before.
abbrev Resumed : Result RunManifest → World → Type 0
Resumed r v =
    (m : RunManifest)
    → r ≡ ok m
    → IsEnded m v ⊎ (m.state ≡ RunState.cancelled) ⊎ (m.state ≡ RunState.rejected)

abbrev resume_loaded : Ctx → RunManifest → RunState → M RunManifest
resume_loaded ctx m RunState.quarantined = throw run_quarantined
resume_loaded ctx m RunState.cancelled = pure m
resume_loaded ctx m RunState.rejected = pure m
resume_loaded ctx m _ = drive ctx m

resume_loaded-Resumed :
    (ctx : Ctx) (m : RunManifest) (s : RunState) (w : World)
    → m.state ≡ s
    → After Resumed (resume_loaded ctx m s) w
resume_loaded-Resumed ctx m RunState.quarantined w e = λ m' h. absurd (cc)
resume_loaded-Resumed ctx m RunState.cancelled w e = λ m' h. inr (inl (cc (e, h)))
resume_loaded-Resumed ctx m RunState.rejected w e = λ m' h. inr (inr (cc (e, h)))
resume_loaded-Resumed ctx m _ w e = λ m' h. inl (drive-EndsRun ctx m w m' h)

-- If `resumeWorkflow` returns a manifest, then either it was cancelled or rejected, or it is the
-- manifest that the ledger now holds for its run, in state `succeeded` with every step succeeded,
-- or in state `failed` or `awaiting_approval`.
pub resume_workflow-Resumed :
    (ctx : Ctx) (run_id : Str) (w : World) (m : RunManifest)
    → (resume_workflow ctx run_id w).0 ≡ ok m
    → IsEnded m (resume_workflow ctx run_id w).1
      ⊎ (m.state ≡ RunState.cancelled)
      ⊎ (m.state ≡ RunState.rejected)
unfolding resume_workflow open_store
resume_workflow-Resumed ctx run_id w =
    After-bind (λ r v. Unit {0}) Resumed (load_for_resume ctx run_id)
      (λ m. resume_loaded ctx m m.state) (open_store ctx.env ctx.config.ledger_root w).1 tt
      (λ m v u. resume_loaded-Resumed ctx m m.state v refl) (λ e v u m' h. absurd (cc))
