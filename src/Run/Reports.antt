-- ===== src/Run/Reports.antt =====
-- The reports of run-service.ts, which read a run and write no file, with the listing functions of
-- ledger/store.ts and ledger/receipts.ts. A run has a directory as soon as it has a manifest.
use tool_flow.Prelude.{
  Bool, true, false, ◌&&◌, List, [], ◌∷◌, ◌++◌, map, Str, codes, nat_beq, Option, some, Table, Key2,
  lookup, str_eq, ◌==◌, keep, last, or_option, if◌then◌else◌,
}
use tool_flow.Types.{
  RunManifest, CompiledGraph, ProofBundle, PolicyArtifact, Receipt, RawWorkflow, Json, text, obj,
  field, end, missing_file, no_runs,
}
use tool_flow.Hashing.{str_leb, hash_json}
use tool_flow.Cells.{sort_texts}
use tool_flow.Compiler.Graph.{compile_workflow}
use tool_flow.Classifier.{build_proof_bundle}
use tool_flow.Policy.{compile_policy_artifact}
use tool_flow.World.{M, ◌>>=◌, ◌>>◌, pure, throw, from_result, require, read_ledger}
use tool_flow.Ledger.{open_store, read_manifest}
use tool_flow.Run.Manifest.{Ctx}

-- `name.startsWith(prefix)`
unfoldable pub starts_with : (prefix name : Str) → Bool
starts_with [] name = true
starts_with (c ∷ prefix) [] = false
starts_with (c ∷ prefix) (d ∷ name) = nat_beq c d && starts_with prefix name

unfoldable pub list_run_ids : Table Str RunManifest → List Str
unfolding starts_with sort_texts
list_run_ids runs = sort_texts (keep (starts_with (codes "run_")) (map (λ e. e.0) runs))

unfoldable pub latest_run_id : Table Str RunManifest → Option Str
unfolding list_run_ids
latest_run_id runs = last (list_run_ids runs)

-- No text and the empty one are refused.
unfoldable pub named_run : Option Str → M Str
named_run (some (c ∷ id)) = pure (c ∷ id)
named_run _ = throw no_runs

-- `runId ?? store.latestRunId()`
unfoldable pub chosen_run : Option Str → M Str
unfolding latest_run_id
chosen_run run_id = do l ← read_ledger; named_run (or_option run_id (latest_run_id l.manifests))

-- Files by name, in the order of their paths: a directory's path comes before each name.
unfoldable pub insert_file : Str → Receipt → List (Str × Receipt) → List (Str × Receipt)
unfolding str_leb
insert_file n r [] = (n, r) ∷ []
insert_file n r ((k, s) ∷ fs) =
    let rest = insert_file n r fs in if str_leb n k then (n, r) ∷ (k, s) ∷ fs else (k, s) ∷ rest

-- The receipts of a run by the names of their files, sorted.
unfoldable pub receipt_files : Str → Table Key2 Receipt → List (Str × Receipt)
unfolding insert_file
receipt_files run_id [] = []
receipt_files run_id (((run, id), r) ∷ t) =
    let rest = receipt_files run_id t in
    if run == run_id then insert_file (id ++ codes ".json") r rest else rest

unfoldable pub list_receipts : Str → M (List Receipt)
list_receipts run_id = do l ← read_ledger; pure (map (λ f. f.1) (receipt_files run_id l.receipts))

unfoldable pub get_run_receipts : Ctx → Option Str → M (Str × List Receipt)
get_run_receipts ctx run_id = do
  open_store ctx.env ctx.config.ledger_root
  id ← chosen_run run_id
  receipts ← list_receipts id
  pure (id, receipts)

unfoldable pub get_run_status : Ctx → Option Str → M RunManifest
get_run_status ctx run_id = do
  open_store ctx.env ctx.config.ledger_root
  id ← chosen_run run_id
  read_manifest id

pub record Inspection : Type 0 where
  pub manifest : RunManifest
  pub compiled_graph : CompiledGraph
  pub proof_bundle : ProofBundle
  pub policy_artifact : PolicyArtifact

unfoldable pub inspect_run : Ctx → Option Str → M Inspection
inspect_run ctx run_id = do
  open_store ctx.env ctx.config.ledger_root
  m ← get_run_status ctx run_id
  l ← read_ledger
  graph ← require missing_file (lookup l.graphs m.run_id)
  proof ← require missing_file (lookup l.proofs m.run_id)
  policy ← require missing_file (lookup l.policies m.run_id)
  pure (record {
    manifest = m;
    compiled_graph = graph;
    proof_bundle = proof;
    policy_artifact = policy;
  })

pub record DryRun : Type 0 where
  pub compiled_graph : CompiledGraph
  pub proof_bundle : ProofBundle
  pub policy_artifact : PolicyArtifact
  pub summary_hash : Str

unfoldable pub summary_json : CompiledGraph → ProofBundle → PolicyArtifact → Json
summary_json graph proof policy = obj (
    field (codes "graph") (text graph.graph_hash) (
      field (codes "proof") (text proof.proof_hash)
        (field (codes "policy") (text policy.policy_hash) end)))

-- Whatever configuration the caller has, this one is `resolveConfig()`.
unfoldable pub dry_run : Ctx → RawWorkflow → M DryRun
dry_run ctx raw = do
  (_, graph) ← from_result (compile_workflow ctx.env raw)
  proof ← build_proof_bundle ctx.env graph ctx.ambient
  policy ← compile_policy_artifact ctx.env graph ctx.ambient
  pure (record {
    compiled_graph = graph;
    proof_bundle = proof;
    policy_artifact = policy;
    summary_hash = hash_json ctx.env (summary_json graph proof policy);
  })
