-- ===== src/Classifier.antt =====
-- The preflight classifier (packages/runtime/src/classifier): what stands against a graph, what is
-- worth a warning, and the decision.
pub mod Decision
use tool_flow.Prelude.{
  ℕ, suc, Bool, true, false, not, ◌&&◌, List, [], ◌∷◌, ◌++◌, map, Str, codes, ◌==◌, str_eq,
  contains, any, keep, length, if◌then◌else◌, Option, some, none,
}
use tool_flow.Types.{
  CellId, elevated, session, cell_eq, action_eq, cell_name, action_name, is_elevated,
  toolflow_cells, toolflow_actions, ReplayClass, review_before_replay, PreflightDecision, allow,
  allow_with_warnings, requires_approval, reject, Note, session_semantics, exact_payload_approval,
  unsupported_schema, no_nodes, elevated_disabled, unsupported_cell, unsupported_action, RiskClass,
  ProofBundle, CompiledStep, CompiledGraph, Json, text, num, arr, obj, Items, nil, cons, Fields,
  end, field, texts,
}
use tool_flow.Env.{Env}
use tool_flow.Config.{RuntimeConfig}
use tool_flow.Hashing.{hash_json}
use tool_flow.World.{M, ◌>>=◌, pure, now_iso}
use tool_flow.Compiler.Graph.{cells_used, actions_used, graph_schema_version}

abbrev pub needs_approval : CompiledStep → Bool
needs_approval n = is_elevated n.cell

-- `requiresApproval`, and the notes
unfoldable pub classify_approvals : CompiledGraph → Bool × List Note
classify_approvals g = elim (keep needs_approval g.nodes) [
  | [] ↦ (false, [])
  | n ∷ ns ↦ (true, map (λ s. exact_payload_approval s.id) (n ∷ ns))
]

unfoldable pub node_failures : RuntimeConfig → CompiledStep → List Note
node_failures config n =
    (if contains toolflow_cells n.cell then [] else unsupported_cell n.cell n.id ∷ [])
    ++ (if contains toolflow_actions n.action then [] else unsupported_action n.action n.id ∷ [])
    ++ (if is_elevated n.cell && not config.enable_elevated
        then elevated_disabled n.id ∷ []
        else [])

unfoldable pub classify_capabilities : List CompiledStep → RuntimeConfig → List Note
unfolding node_failures
classify_capabilities [] config = []
classify_capabilities (n ∷ ns) config = node_failures config n ++ classify_capabilities ns config

abbrev pub is_review : ReplayClass → Bool
is_review review_before_replay = true
is_review _ = false

unfoldable pub classify_replay : CompiledGraph → List Note
classify_replay g =
    map (λ n. Note.review_before_replay n.id) (keep (λ n. is_review n.replay_class) g.nodes)

unfoldable pub classify_side_effects : CompiledGraph → List Note
classify_side_effects g = map (λ n. session_semantics n.id) (keep (λ n. n.cell == session) g.nodes)

unfoldable pub classify_structural : CompiledGraph → List Note
classify_structural g =
    (if g.schema_version == graph_schema_version then [] else unsupported_schema ∷ [])
    ++ elim g.nodes [ [] ↦ no_nodes ∷ [] | _ ∷ _ ↦ [] ]

unfoldable pub decide_outcome : List Note → List Note → Bool → PreflightDecision
decide_outcome (f ∷ fs) warnings approval = reject
decide_outcome [] warnings true = requires_approval
decide_outcome [] (w ∷ ws) false = allow_with_warnings
decide_outcome [] [] false = allow

-- The texts of the notes.
unfoldable pub note_text : Note → Str
unfolding cell_name action_name
note_text (Note.review_before_replay id) =
    codes "Step \"" ++ id ++ codes "\" requires review before replay."
note_text (session_semantics id) =
    codes "Session step \"" ++ id ++ codes "\" is constrained to local session semantics."
note_text (exact_payload_approval id) =
    codes "Step \"" ++ id ++ codes "\" requires exact-payload elevated approval."
note_text unsupported_schema = codes "Unsupported compiled graph schemaVersion."
note_text no_nodes = codes "Compiled graph has no executable nodes."
note_text (elevated_disabled id) =
    codes "Elevated lane is disabled for step \"" ++ id ++ codes "\"."
note_text (unsupported_cell c id) =
    codes "Unsupported cell \"" ++ cell_name c ++ codes "\" in step \"" ++ id ++ codes "\"."
note_text (unsupported_action a id) =
    codes "Unsupported action \"" ++ action_name a ++ codes "\" in step \"" ++ id ++ codes "\"."

unfoldable pub decision_name : PreflightDecision → Str
decision_name allow = codes "allow"
decision_name allow_with_warnings = codes "allow_with_warnings"
decision_name requires_approval = codes "requires_approval"
decision_name reject = codes "reject"

unfoldable pub risk_name : RiskClass → Str
risk_name RiskClass.safe = codes "safe"
risk_name RiskClass.elevated = codes "elevated"

unfoldable pub proof_json : Env → ProofBundle → Json
proof_json env p = obj (
    field (codes "schemaVersion") (text (codes "toolflow.proof-bundle/v1")) (
      field (codes "workflowName") (text p.workflow_name) (
        field (codes "graphHash") (text p.graph_hash) (
          field (codes "decision") (text (decision_name p.decision)) (
            field (codes "riskClass") (text (risk_name p.risk_class)) (
              field (codes "requiredCells") (arr (texts (map cell_name p.required_cells))) (
                field (codes "requiredActions") (arr (texts (map action_name p.required_actions))) (
                  field (codes "warnings") (arr (texts (map note_text p.warnings))) (
                    field (codes "objectiveFailures")
                      (arr (texts (map note_text p.objective_failures)))
                      (field (codes "estimates") (obj (estimates p.step_count))
                        (field (codes "createdAt") (text (env.iso p.created_at)) end)))))))))))
  where
    estimates : ℕ → Fields
    estimates n = field (codes "stepCount") (num (env.decimal n)) (
        field (codes "latency") (text (codes "local_fast"))
          (field (codes "cost") (text (codes "none")) end))

-- The bundle for a time of creation.
unfoldable pub proof_bundle_at : Env → CompiledGraph → RuntimeConfig → ℕ → ProofBundle
proof_bundle_at env g config now =
    let approvals = classify_approvals g in
    let failures = classify_structural g ++ classify_capabilities g.nodes config in
    let warnings = classify_replay g ++ classify_side_effects g in
    let cells = cells_used g.nodes in
    let bundle : ProofBundle = record {
      workflow_name = g.workflow_name;
      graph_hash = g.graph_hash;
      decision = decide_outcome failures warnings approvals.0;
      risk_class = if contains cells elevated then RiskClass.elevated else RiskClass.safe;
      required_cells = cells;
      required_actions = actions_used g.nodes;
      warnings = warnings ++ approvals.1;
      objective_failures = failures;
      step_count = length g.nodes;
      created_at = now;
      proof_hash = [];
    } in
    record bundle { proof_hash = hash_json env (proof_json env bundle) }

unfoldable pub build_proof_bundle : Env → CompiledGraph → RuntimeConfig → M ProofBundle
unfolding now_iso
build_proof_bundle env g config = do now ← now_iso env; pure (proof_bundle_at env g config now)
