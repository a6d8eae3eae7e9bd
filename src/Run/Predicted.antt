-- ===== src/Run/Predicted.antt =====
-- What `dryRun` (control-plane/run-service.ts) says of the run that `prepareRun` would write.
use tool_flow.Prelude.{◌≢◌, arith, suc, ◌≡◌, refl, ◌∙◌, ap, some, lookup, lookup-put_self, str_eq}
use tool_flow.Types.{
  PreflightDecision, RunState, Result, ok, err, RawWorkflow, RunManifest, CompiledGraph,
  WorkflowSource,
}
use tool_flow.World.{World, After, pure, random_hex, now_iso, run_prepared}
use tool_flow.Ledger.{open_store}
use tool_flow.Compiler.Graph.{compile_workflow}
use tool_flow.Classifier.{build_proof_bundle, proof_bundle_at}
use tool_flow.Hashing.{hash_json}
use tool_flow.Policy.{compile_policy_artifact, policy_artifact_at}
use tool_flow.Run.Manifest.{Ctx}
use tool_flow.Run.Loop.{initial_state, prepare_run}
use tool_flow.Run.Persist.{persist-bind, event-bind, Persisted, SameRun}
use tool_flow.Run.Reports.{DryRun, dry_run, summary_json}

-- The run that was prepared is the one that the dry run described.
pub record IsPredicted (report : DryRun) (m : RunManifest) (v : World) : Type 0 where
  pub rejected :
      report.proof_bundle.decision ≡ PreflightDecision.reject → m.state ≡ RunState.rejected
  pub ready : report.proof_bundle.decision ≢ PreflightDecision.reject → m.state ≡ RunState.ready
  pub graph_hash : m.graph_hash ≡ report.compiled_graph.graph_hash
  pub policy_hash : m.policy_hash ≡ report.policy_artifact.policy_hash
  pub graph : lookup v.ledger.graphs m.run_id ≡ some report.compiled_graph
  pub policy : lookup v.ledger.policies m.run_id ≡ some report.policy_artifact

-- A dry run that throws, and a run that does not start for the same reason, or one that it describes.
abbrev pub Predicts : Result DryRun → Result RunManifest → World → Type 0
Predicts (err e) r v = r ≡ err e
Predicts (ok report) r v = (m : RunManifest) × (r ≡ ok m) × IsPredicted report m v

initial_state-cases :
    (d : PreflightDecision)
    → (d ≡ PreflightDecision.reject → initial_state d ≡ RunState.rejected)
      × (d ≢ PreflightDecision.reject → initial_state d ≡ RunState.ready)
unfolding initial_state
initial_state-cases d = ground arith

Persisted-IsPredicted :
    (report : DryRun) (old m : RunManifest) {u v z : World}
    → old.state ≡ initial_state report.proof_bundle.decision
    → old.graph_hash ≡ report.compiled_graph.graph_hash
    → old.policy_hash ≡ report.policy_artifact.policy_hash
    → lookup u.ledger.graphs old.run_id ≡ some report.compiled_graph
    → lookup u.ledger.policies old.run_id ≡ some report.policy_artifact
    → Persisted old m u v
    → SameRun v z
    → IsPredicted report m z
Persisted-IsPredicted report old m s g h graph policy p q =
    let same_run : m.run_id ≡ old.run_id = ap (λ (x : RunManifest). x.run_id) p.stamp in
    let state : m.state ≡ initial_state report.proof_bundle.decision =
      ap (λ (x : RunManifest). x.state) p.stamp ∙ s in
    record {
      rejected = λ d. state ∙ (initial_state-cases report.proof_bundle.decision).0 d;
      ready = λ d. state ∙ (initial_state-cases report.proof_bundle.decision).1 d;
      graph_hash = ap (λ (x : RunManifest). x.graph_hash) p.stamp ∙ g;
      policy_hash = ap (λ (x : RunManifest). x.policy_hash) p.stamp ∙ h;
      graph = rw (same_run, q.files.graphs, p.files.graphs) graph;
      policy = rw (same_run, q.files.policies, p.files.policies) policy;
    }

-- In the same world and with the configuration of the environment, `prepareRun` throws what `dryRun`
-- throws, and where this reports, it writes a run with the reported graph and policy, rejected if
-- the report's decision is to reject and ready otherwise.
pub dry_run-Predicts :
    (ctx : Ctx) (raw : RawWorkflow) (w : World)
    → After
        (Predicts (dry_run ctx raw w).0)
        (prepare_run (record ctx { config = ctx.ambient }) raw)
        w
unfolding dry_run prepare_run open_store build_proof_bundle compile_policy_artifact random_hex
    now_iso
dry_run-Predicts ctx raw w = go (compile_workflow ctx.env raw) refl
  where
    go :
        (r : Result (WorkflowSource × CompiledGraph))
        → compile_workflow ctx.env raw ≡ r
        → After
            (Predicts (dry_run ctx raw w).0)
            (prepare_run (record ctx { config = ctx.ambient }) raw)
            w
    go (err e) h = rw h
    go (ok (source, graph)) h =
        let proof = proof_bundle_at ctx.env graph ctx.ambient (ctx.env.clock w.ticks) in
        let policy = policy_artifact_at ctx.env graph ctx.ambient (ctx.env.clock (suc w.ticks)) in
        let report : DryRun = record {
          compiled_graph = graph;
          proof_bundle = proof;
          policy_artifact = policy;
          summary_hash = hash_json ctx.env (summary_json graph proof policy);
        } in
        rw h (
          persist-bind (record ctx { config = ctx.ambient }) _ (Predicts (ok report)) _ _
            λ m u p.
              event-bind ctx.env _ (run_prepared proof.decision) (Predicts (ok report)) (pure m) u
                λ v q. (
                  m,
                  refl,
                  Persisted-IsPredicted report _ m refl refl refl
                      (lookup-put_self w.ledger.graphs _ graph)
                      (lookup-put_self w.ledger.policies _ policy) p q,
                ))
