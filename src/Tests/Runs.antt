-- ===== src/Tests/Runs.antt =====
-- A run of the workflow of two steps: carried out, cancelled and recovered.
use tool_flow.Prelude.{
  Bool, ◌≡◌, ◌≢◌, refl, ◌⊎◌, List, [], ◌∷◌, Str, str_beq, codes, none, true, false, lookup, put,
  key2_beq, arith,
}
use tool_flow.Types.{
  RunState, StepState, StepManifest, RunManifest, PolicyArtifact, StepGrant, cell_beq, action_beq,
  get_field, Result, ok,
}
use tool_flow.Config.{default_config}
use tool_flow.Hashing.{hash_json}
use tool_flow.Crypto.{sign_object, verify_object, from_hex, hex_digit}
use tool_flow.World.{World, now_iso, random_hex, next_effect}
use tool_flow.Ledger.{
  open_store, read_grant, write_grant, consume_grant, write_receipt, read_approval, write_manifest,
  read_manifest, append_event, try_read_receipt,
}
use tool_flow.Mirror.{sync_taskflow_mirror, read_mirror_index}
use tool_flow.Policy.{policy_artifact_at}
use tool_flow.Cells.{
  run_read_cell, read_file_action, string_arg, run_session_cell, session_note_action, text_or,
  succeeds,
}
use tool_flow.Bridge.{
  ensure, bridge_beq, is_expired, verify_grant_for_request, status_of, output_hash_of, receipt_at,
  emit_receipt, record_outcome, execute_same_process, handler_of, request_of, dispatch_step,
  grant_at, mint_step_grant,
}
use tool_flow.Bridge.Mint.{mint_step_grant-verify}
use tool_flow.Run.Manifest.{
  Ctx, next_runnable_steps, is_runnable, dep_succeeded, modify_step, update_step, apply_receipt,
  reconcile_receipt, step_state_of, some_step, every_step,
}
use tool_flow.Run.Loop.{
  persist_manifest, set_state, key_for, settle_step, perform_step, run_step, run_batch, finish_run,
  run_rounds,
}
use tool_flow.Run.Operator.{load_for_resume, drive, resume_workflow, cancel_run}
use tool_flow.Run.Recovery.{
  recover_run, recover_steps, recover_step, recover_entry, recover_interrupted, recover_ungranted,
  is_settled, needs_review, derive_run_state, RecoveryStepResult,
}
use tool_flow.Run.Rounds.{run_rounds-total}
use tool_flow.Run.Ended.{IsEnded}
use tool_flow.Run.Resumed.{resume_workflow-Resumed}
use tool_flow.Run.Cancelled.{is_over, IsCancelled, cancel_run-Cancels}
use tool_flow.Run.Restored.{IsRestored, recover_run-Restores}
use tool_flow.Prelude.{some, str_eq}
use tool_flow.World.{TaskflowMirrorIndex}
use tool_flow.Mirror.Index.{IsIndexed, no_index, sync_taskflow_mirror-IsIndexed}
use tool_flow.Prelude.{key2_eq}
use tool_flow.Types.{ApprovalBinding}
use tool_flow.Bridge.{ensure_approval_for_elevated_request}
use tool_flow.Run.Operator.{approve_step}
use tool_flow.Run.Approval.{approve_step-ensure_approval}
use tool_flow.Tests.Samples.{constant_env, test_key, two_step_graph, note_node, no_ledger, world_of}

abbrev ctx : Ctx
ctx = record {
  env = constant_env;
  config = default_config;
  ambient = default_config;
  allowed = [];
  ordinary_key = test_key;
  elevated_key = test_key;
}

abbrev policy : PolicyArtifact
policy = policy_artifact_at constant_env two_step_graph default_config 0

abbrev step_entry : Str → StepState → StepManifest
step_entry id s = record {
  id = id;
  state = s;
  grant_id = none;
  receipt_id = none;
  started_at = none;
  ended_at = none;
  output_path = none;
  error = none;
}

-- A run of the two steps in given states.
abbrev run_of : RunState → StepState → StepState → RunManifest
run_of s a b = record {
  run_id = codes "r";
  workflow_name = codes "w";
  state = s;
  created_at = 0;
  updated_at = 0;
  workflow_hash = codes "d1";
  graph_hash = codes "d1";
  proof_hash = codes "d1";
  policy_hash = codes "d1";
  steps = (codes "a", step_entry (codes "a") a) ∷ (codes "b", step_entry (codes "b") b) ∷ [];
}

abbrev holding : RunManifest → World
holding m = world_of record no_ledger {
  graphs = (codes "r", two_step_graph) ∷ [];
  policies = (codes "r", policy) ∷ [];
  manifests = (codes "r", m) ∷ [];
}

abbrev ready_run : RunManifest
ready_run = run_of RunState.ready StepState.pending StepState.pending

run_rounds-total_example :
    (run_rounds ctx two_step_graph policy (codes "r") 3 ready_run (holding ready_run)).0 ≢ ok none
run_rounds-total_example =
    run_rounds-total ctx two_step_graph policy (codes "r") 3 ready_run (holding ready_run)
      (omega arith)

mint_step_grant-verify_example :
    (g : StepGrant) × ((mint_step_grant constant_env test_key
        (codes "r")
        note_node
        policy
        300
        none
        (holding ready_run)).0
      ≡ ok g)
    × ((verify_grant_for_request constant_env policy test_key
          (request_of note_node g)
          (mint_step_grant constant_env test_key
            (codes "r")
            note_node
            policy
            300
            none
            (holding ready_run)).1).0
        ≡ ok tt)
unfolding hash_json
mint_step_grant-verify_example =
    mint_step_grant-verify constant_env test_key (codes "r") note_node policy 300 none
      (holding ready_run) refl (omega arith)

abbrev value_or {ℓ} : {A : Type ℓ} → Result A → A → A
value_or (ok a) d = a
value_or (Result.err e) d = d

abbrev is_ok {ℓ} : {A : Type ℓ} → Result A → Bool
is_ok (ok a) = true
is_ok (Result.err e) = false

ok-value_or {ℓ} : {A : Type ℓ} (r : Result A) (d : A) → is_ok r ≡ true → r ≡ ok (value_or r d)
ok-value_or (ok a) d h = refl
ok-value_or (Result.err e) d h = absurd (cc)

-- The manifest that the run ends with.
abbrev resumed_run : RunManifest
resumed_run = value_or (resume_workflow ctx (codes "r") (holding ready_run)).0 ready_run

resumes_ok : is_ok (resume_workflow ctx (codes "r") (holding ready_run)).0 ≡ true
unfolding resume_workflow open_store load_for_resume drive run_rounds run_batch run_step
    perform_step settle_step finish_run key_for persist_manifest write_manifest read_manifest
    append_event sync_taskflow_mirror read_mirror_index next_runnable_steps is_runnable
    dep_succeeded modify_step update_step apply_receipt reconcile_receipt step_state_of
    read_approval mint_step_grant grant_at random_hex set_state some_step every_step next_effect
    dispatch_step request_of handler_of execute_same_process verify_grant_for_request ensure
    verify_object sign_object from_hex hex_digit str_beq bridge_beq cell_beq action_beq hash_json
    policy_artifact_at read_grant lookup key2_beq run_session_cell session_note_action get_field
    run_read_cell read_file_action string_arg text_or succeeds record_outcome emit_receipt
    receipt_at status_of output_hash_of write_receipt consume_grant write_grant put now_iso
    is_expired default_config
resumes_ok = refl

resumes : (resume_workflow ctx (codes "r") (holding ready_run)).0 ≡ ok resumed_run
resumes = ok-value_or (resume_workflow ctx (codes "r") (holding ready_run)).0 ready_run resumes_ok

resumes_with_success : resumed_run.state ≡ RunState.succeeded
unfolding resume_workflow open_store load_for_resume drive run_rounds run_batch run_step
    perform_step settle_step finish_run key_for persist_manifest write_manifest read_manifest
    append_event sync_taskflow_mirror read_mirror_index next_runnable_steps is_runnable
    dep_succeeded modify_step update_step apply_receipt reconcile_receipt step_state_of
    read_approval mint_step_grant grant_at random_hex set_state some_step every_step next_effect
    dispatch_step request_of handler_of execute_same_process verify_grant_for_request ensure
    verify_object sign_object from_hex hex_digit str_beq bridge_beq cell_beq action_beq hash_json
    policy_artifact_at read_grant lookup key2_beq run_session_cell session_note_action get_field
    run_read_cell read_file_action string_arg text_or succeeds record_outcome emit_receipt
    receipt_at status_of output_hash_of write_receipt consume_grant write_grant put now_iso
    is_expired default_config
resumes_with_success = refl

resume_workflow-Resumed_example :
    IsEnded resumed_run (resume_workflow ctx (codes "r") (holding ready_run)).1
    ⊎ (resumed_run.state ≡ RunState.cancelled)
    ⊎ (resumed_run.state ≡ RunState.rejected)
resume_workflow-Resumed_example =
    resume_workflow-Resumed ctx (codes "r") (holding ready_run) resumed_run resumes

cancel_run-Cancels_example :
    ((is_over ready_run.state ≡ true)
      × (cancel_run ctx (codes "r") (codes "stop") (holding ready_run)
          ≡ (ok ready_run, (open_store ctx.env ctx.config.ledger_root (holding ready_run)).1)))
    ⊎ ((is_over ready_run.state ≡ false)
        × ((m : RunManifest) × ((cancel_run ctx (codes "r") (codes "stop") (holding ready_run)).0
              ≡ ok m)
            × IsCancelled ready_run m
                (holding ready_run)
                (cancel_run ctx (codes "r") (codes "stop") (holding ready_run)).1))
unfolding lookup str_beq
cancel_run-Cancels_example =
    cancel_run-Cancels ctx (codes "r") (codes "stop") (holding ready_run) ready_run refl

-- Interrupted while the second step ran.
abbrev broken_run : RunManifest
broken_run = run_of RunState.running StepState.succeeded StepState.running

abbrev recovered_run : RunManifest × List RecoveryStepResult
recovered_run = value_or (recover_run ctx (codes "r") (holding broken_run)).0 (broken_run, [])

recovers : (recover_run ctx (codes "r") (holding broken_run)).0 ≡ ok recovered_run
unfolding recover_run recover_steps recover_step recover_entry recover_interrupted recover_ungranted
    is_settled needs_review derive_run_state write_manifest read_manifest append_event
    sync_taskflow_mirror read_mirror_index lookup put str_beq key2_beq try_read_receipt now_iso
recovers = refl

recover_run-Restores_example :
    IsRestored broken_run recovered_run.0 two_step_graph.nodes
      (recover_run ctx (codes "r") (holding broken_run)).1
unfolding lookup str_beq
recover_run-Restores_example =
    recover_run-Restores ctx (codes "r") (holding broken_run) broken_run two_step_graph
      recovered_run refl refl recovers

sync_taskflow_mirror-IsIndexed_example :
    (index : TaskflowMirrorIndex) × (lookup
        (sync_taskflow_mirror constant_env default_config ready_run
          (holding ready_run)).1.ledger.mirror_indexes
        default_config.taskflow_mirror_root
      ≡ some index)
    × IsIndexed ready_run no_index index
unfolding lookup
sync_taskflow_mirror-IsIndexed_example =
    sync_taskflow_mirror-IsIndexed constant_env default_config ready_run (holding ready_run)

approve_step-ensure_approval_example :
    (a : ApprovalBinding) × ((approve_step constant_env
        (codes "r")
        note_node
        policy.policy_hash
        (codes "me")
        (holding ready_run)).0
      ≡ ok a)
    × (lookup
          (approve_step constant_env
            (codes "r")
            note_node
            policy.policy_hash
            (codes "me")
            (holding ready_run)).1.ledger.approvals
          (codes "r", note_node.id)
        ≡ some a)
    × ((ensure_approval_for_elevated_request
          (grant_at constant_env test_key
            (codes "r")
            note_node
            policy
            300
            (some a.approval_hash)
            (codes "t")
            1
            2
            (codes "n")).unsigned
          (some a)
          (holding ready_run)).0
        ≡ ok tt)
approve_step-ensure_approval_example =
    approve_step-ensure_approval constant_env (codes "r") note_node policy (codes "me")
      (holding ready_run) (holding ready_run) test_key 300 (codes "t") 1 2 (codes "n")
      (λ value e. absurd (cc))
