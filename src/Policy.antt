-- ===== src/Policy.antt =====
-- packages/runtime/src/policy: the policy artifact of a graph, the test of a step against it, and
-- whether an interrupted step may be replayed.
pub mod Allowed
use tool_flow.Prelude.{
  ℕ, Bool, true, false, ◌&&◌, List, [], ◌∷◌, map, Str, codes, any, contains, if◌then◌else◌, Option,
  none, some,
}
use tool_flow.Types.{
  CellId, read, research, session, elevated, Action, read_file, list_files, research_note,
  session_note, exec_command, apply_patch, action_eq, is_elevated, cell_name, action_name,
  ReplayClass, review_before_replay, ReplayDecision, replay_allowed, review_required, Profile,
  operator_elevated, BridgeMode, same_process_typed_contracts, local_private_typed_contracts,
  PolicyArtifact, CompiledStep, CompiledGraph, Json, text, arr, obj, Fields, end, field, texts,
}
use tool_flow.Env.{Env}
use tool_flow.Config.{RuntimeConfig}
use tool_flow.Hashing.{hash_json}
use tool_flow.World.{M, ◌>>=◌, pure, now_iso}

-- `elevated && config.enableElevated`
unfoldable pub elevated_lane : CompiledGraph → RuntimeConfig → Bool
elevated_lane g config = any (λ n. is_elevated n.cell) g.nodes && config.enable_elevated

unfoldable pub allowed_actions : Bool → CellId → List Action
allowed_actions lane read = read_file ∷ list_files ∷ []
allowed_actions lane research = research_note ∷ []
allowed_actions lane session = session_note ∷ []
allowed_actions lane elevated = if lane then exec_command ∷ apply_patch ∷ [] else []

unfoldable pub allowed_cells_of : Bool → List CellId
allowed_cells_of true = read ∷ research ∷ session ∷ elevated ∷ []
allowed_cells_of false = read ∷ research ∷ session ∷ []

unfoldable pub binding_notes_of : (requested lane : Bool) → List Str
binding_notes_of requested lane =
    (if lane
      then codes "Elevated lane is local-only, approval-bound, and typed."
      else codes "Safe Profile MVP permits bridge and cell in one process.")
    ∷ codes
        "Typed bridge contracts, grant verification, payload hash checks, and receipts remain binding."
    ∷ (if lane
        then codes
            "Elevated actions require exact-payload approval and remain limited to exec_command, apply_patch."
        else if requested
        then codes
            "Elevated actions were requested but the elevated lane is disabled in this runtime configuration."
        else codes
            "No elevated actions are present; supported actions are read_file, list_files, research_note, session_note.")
    ∷ []

unfoldable pub profile_name : Profile → Str
profile_name Profile.safe = codes "safe"
profile_name operator_elevated = codes "operator-elevated"

unfoldable pub bridge_mode_name : BridgeMode → Str
bridge_mode_name same_process_typed_contracts = codes "same-process-typed-contracts"
bridge_mode_name local_private_typed_contracts = codes "local-private-typed-contracts"

unfoldable pub policy_json : Env → PolicyArtifact → Json
policy_json env p = obj (
    field (codes "schemaVersion") (text (codes "toolflow.policy-artifact/v1")) (
      field (codes "profile") (text (profile_name p.profile)) (
        field (codes "allowedCells") (arr (texts (map cell_name p.allowed_cells))) (
          field (codes "allowedActionsByCell")
            (obj (
              field (codes "read") (actions read) (
                field (codes "research") (actions research) (
                  field (codes "session") (actions session)
                    (field (codes "elevated") (actions elevated) end)))))
            (field (codes "bridgeMode") (text (bridge_mode_name p.bridge_mode)) (
              field (codes "bindingNotes") (arr (texts p.binding_notes))
                (field (codes "createdAt") (text (env.iso p.created_at)) end)))))))
  where
    actions : CellId → Json
    actions c = arr (texts (map action_name (p.allowed_actions_by_cell c)))

-- The artifact for a time of creation.
unfoldable pub policy_artifact_at : Env → CompiledGraph → RuntimeConfig → ℕ → PolicyArtifact
unfolding elevated_lane allowed_actions allowed_cells_of
policy_artifact_at env g config now =
    let lane = elevated_lane g config in
    let policy : PolicyArtifact = record {
      profile = if lane then operator_elevated else Profile.safe;
      policy_hash = [];
      allowed_cells = allowed_cells_of lane;
      allowed_actions_by_cell = allowed_actions lane;
      bridge_mode = if lane then local_private_typed_contracts else same_process_typed_contracts;
      binding_notes = binding_notes_of (any (λ n. is_elevated n.cell) g.nodes) lane;
      created_at = now;
    } in
    record policy { policy_hash = hash_json env (policy_json env policy) }

unfoldable pub compile_policy_artifact : Env → CompiledGraph → RuntimeConfig → M PolicyArtifact
unfolding now_iso policy_artifact_at
compile_policy_artifact env g config = do
  now ← now_iso env
  pure (policy_artifact_at env g config now)

-- `evaluateStepPolicy`: `some` of the action and cell is the text of the refusal.
unfoldable pub evaluate_step_policy : CompiledStep → PolicyArtifact → Option (Action × CellId)
evaluate_step_policy step policy =
    if contains (policy.allowed_actions_by_cell step.cell) step.action
    then none
    else some (step.action, step.cell)

unfoldable pub evaluate_bridge_policy : PolicyArtifact → CellId → Action → Bool
evaluate_bridge_policy policy cell action = contains (policy.allowed_actions_by_cell cell) action

unfoldable pub replay_decision : ReplayClass → ReplayDecision
replay_decision review_before_replay = review_required
replay_decision _ = replay_allowed
