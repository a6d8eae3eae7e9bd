-- ===== src/Run/Rounds.antt =====
-- The number of rounds of the loop of `resumeWorkflow` (control-plane/run-service.ts).
use tool_flow.Prelude.{
  ℕ, zero, suc, ◌<◌, ◌≡◌, refl, sym, ◌≢◌, List, [], ◌∷◌, Str, Option, none, some, str_eq, tally-le,
  length, arith,
}
use tool_flow.Types.{RunManifest, CompiledStep, CompiledGraph, PolicyArtifact, Result, ok}
use tool_flow.World.{World, M, After, After-bind, ◌>>=◌, from_result, pure}
use tool_flow.Run.Manifest.{Ctx, next_runnable_steps}
use tool_flow.Run.Loop.{Flow, next, stop, run_batch, finish_run, run_rounds}
use tool_flow.Run.Pending.{pending_at, pending_nodes, pending_nodes-lt}
use tool_flow.Run.Progress.{Goes, Advanced, run_batch-Advanced}

-- What is left to show of a run of the loop: that its fuel did not run out.
abbrev Ran : Result (Option RunManifest) → World → Type 0
Ran r v = r ≢ ok none

some-Ran :
    {A : Type 0} (n : M A) (f : A → RunManifest) (w : World)
    → After Ran (n >>= λ a. pure (some (f a))) w
some-Ran n f w =
    After-bind (λ r v. Unit {0}) Ran n _ w tt (λ a v u h. absurd (cc)) (λ e v u h. absurd (cc))

run_rounds-Ran :
    (ctx : Ctx) (g : CompiledGraph) (policy : PolicyArtifact) (run_id : Str) (fuel : ℕ)
    (m : RunManifest) (w : World)
    → pending_nodes m.steps g.nodes < fuel
    → After Ran (run_rounds ctx g policy run_id fuel m) w
unfolding run_rounds
run_rounds-Ran ctx g policy run_id zero m w h = absurd (omega arith)
run_rounds-Ran ctx g policy run_id (suc fuel) m w h =
    After-bind (λ r v. r ≡ next_runnable_steps g.nodes m.steps) Ran
      (from_result (next_runnable_steps g.nodes m.steps)) _ w refl
      (λ runnable v e.
        by_batch runnable v (sym e) (λ m1 u k. run_rounds-Ran ctx g policy run_id fuel m1 u k))
      (λ e v x h. absurd (cc))
  where
    by_flow :
        (flow : Flow) (v : World)
        → ((m1 : RunManifest) (u : World)
            → pending_nodes m1.steps g.nodes < fuel
            → After Ran (run_rounds ctx g policy run_id fuel m1) u)
        → Goes (λ m1. pending_nodes m1.steps g.nodes < pending_nodes m.steps g.nodes) (ok flow) v
        → After Ran
            (elim flow [
              | stop m1 ↦ pure (some m1)
              | next m1 ↦ run_rounds ctx g policy run_id fuel m1
            ])
            v
    by_flow (stop m1) v ih less = λ h. absurd (cc)
    by_flow (next m1) v ih less = ih m1 v (omega (arith, less m1 refl))

    by_batch :
        (runnable : List CompiledStep) (v : World)
        → next_runnable_steps g.nodes m.steps ≡ ok runnable
        → ((m1 : RunManifest) (u : World)
            → pending_nodes m1.steps g.nodes < fuel
            → After Ran (run_rounds ctx g policy run_id fuel m1) u)
        → After Ran
            (elim runnable [
              | [] ↦ finish_run ctx run_id m >>= λ m1. pure (some m1)
              | step ∷ steps ↦ run_batch ctx policy run_id (step ∷ steps) m >>= λ flow. elim flow [
                | stop m1 ↦ pure (some m1)
                | next m1 ↦ run_rounds ctx g policy run_id fuel m1
              ]
            ])
            v
    by_batch [] v e ih = some-Ran (finish_run ctx run_id m) (λ m1. m1) v
    by_batch (step ∷ steps) v e ih =
        After-bind (Goes (Advanced m step.id)) Ran (run_batch ctx policy run_id (step ∷ steps) m) _
          v (run_batch-Advanced ctx policy run_id step steps m v)
          (λ flow u a.
            by_flow flow u ih (λ m1 q.
              pending_nodes-lt m.steps m1.steps g.nodes step steps e (a m1 q).1 (a m1 q).0))
          (λ f u a h. absurd (cc))

-- With more fuel than the graph has nodes, as `resumeWorkflow` is given, the loop does not run out
-- of it, whatever the steps do: it returns a manifest or throws what a step throws.
pub run_rounds-total :
    (ctx : Ctx) (g : CompiledGraph) (policy : PolicyArtifact) (run_id : Str) (fuel : ℕ)
    (m : RunManifest) (w : World)
    → length g.nodes < fuel
    → (run_rounds ctx g policy run_id fuel m w).0 ≢ ok none
run_rounds-total ctx g policy run_id fuel m w h =
    run_rounds-Ran ctx g policy run_id fuel m w
      (omega (arith, tally-le (λ n. pending_at m.steps n.id) g.nodes))
