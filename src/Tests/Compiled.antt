-- ===== src/Tests/Compiled.antt =====
-- The compiler, the classifier and the policy on the workflow of two steps.
use tool_flow.Prelude.{
  ◌≡◌, refl, ◌↔◌, ◌⊎◌, Str, str_beq, true, none, any, any, lookup, contains, without,
}
use tool_flow.Types.{ok, err, cycle, elevated, is_elevated, action_of_name, cell_of_name}
use tool_flow.Hashing.{hash_json}
use tool_flow.Hashing.Order.{objects, swapped, hash_json-same}
use tool_flow.Run.Manifest.{Steps}
use tool_flow.Run.Loop.{pending_step}
use tool_flow.Types.{StepState, obj, field, num, bool, end}
use tool_flow.Prelude.{codes, [], ◌∷◌, str_eq}
use tool_flow.Config.{default_config}
use tool_flow.Compiler.Normalize.{
  is_alnum, is_id_char, is_step_id, check_duplicate, check_action, check_cell, default_replay,
  normalize_workflow, normalize_steps, normalize_step, infer_cell,
}
use tool_flow.Compiler.Variables.{
  resolve_variables, resolve_steps, resolve_fields, replace_references, match_reference, match_key,
  strip_prefix, input_text, string_of,
}
use tool_flow.Compiler.Cycles.{
  Marks, detect_cycles, visit, visit_each, no_marks, deps_of, find_deps,
}
use tool_flow.Compiler.Cycles.Search.{Reaches}
use tool_flow.Compiler.Graph.{
  build_graph, check_dependencies, find_unknown, compile_step, compile_workflow,
}
use tool_flow.Compiler.Graph.WellFormed.{IsWellFormed, compile_workflow-IsWellFormed}
use tool_flow.Compiler.Cycles.Acyclic.{detect_cycles_decides, Layered}
use tool_flow.Classifier.{proof_bundle_at}
use tool_flow.Classifier.Decision.{preflight, proof_bundle-decision}
use tool_flow.Policy.{evaluate_step_policy, policy_artifact_at}
use tool_flow.Policy.Allowed.{evaluate_step_policy_iff}
use tool_flow.Tests.Samples.{
  constant_env, raw_workflow, resolved_workflow, two_step_graph, note_node,
}

compiles_two : compile_workflow constant_env raw_workflow ≡ ok (resolved_workflow, two_step_graph)
unfolding compile_workflow normalize_workflow normalize_steps normalize_step check_action check_cell
    check_duplicate contains str_beq action_of_name cell_of_name infer_cell resolve_variables
    resolve_steps resolve_fields replace_references match_reference match_key strip_prefix
    input_text is_id_char is_alnum is_step_id string_of lookup build_graph check_dependencies
    find_unknown detect_cycles visit visit_each no_marks deps_of find_deps without compile_step
    hash_json default_replay
compiles_two = refl

compile_workflow-IsWellFormed_example : IsWellFormed constant_env two_step_graph
compile_workflow-IsWellFormed_example =
    compile_workflow-IsWellFormed constant_env raw_workflow resolved_workflow two_step_graph
      compiles_two

detect_cycles_decides_example :
    ((m : Marks) × (detect_cycles resolved_workflow.steps ≡ ok m) × Layered resolved_workflow.steps)
    ⊎ ((x : Str) × (detect_cycles resolved_workflow.steps ≡ err (cycle x))
        × Reaches (deps_of resolved_workflow.steps) x x)
unfolding contains str_beq
detect_cycles_decides_example = detect_cycles_decides resolved_workflow.steps (tt, ((refl, tt), tt))

proof_bundle-decision_example :
    (proof_bundle_at constant_env two_step_graph default_config 5).decision
    ≡ preflight default_config.enable_elevated two_step_graph.nodes
proof_bundle-decision_example =
    proof_bundle-decision constant_env raw_workflow resolved_workflow two_step_graph default_config
      5 compiles_two

evaluate_step_policy_iff_example :
    (evaluate_step_policy note_node
        (policy_artifact_at constant_env two_step_graph default_config 5)
      ≡ none)
    ↔ ((infer_cell note_node.action ≡ note_node.cell)
        × (note_node.cell ≡ elevated
            → (any (λ n. is_elevated n.cell) two_step_graph.nodes ≡ true)
              × (default_config.enable_elevated ≡ true)))
evaluate_step_policy_iff_example =
    evaluate_step_policy_iff constant_env two_step_graph default_config 5 note_node

-- The read is done, the note waits for nothing else.
abbrev half_done : Steps
half_done =
    (codes "a", record (pending_step (codes "a")) { state = StepState.succeeded })
    ∷ (codes "b", pending_step (codes "b"))
    ∷ []

-- Two fields in either order.
hash_json-same_example :
    hash_json constant_env
      (obj (field (codes "b") (num (codes "1")) (field (codes "a") (bool true) end)))
    ≡ hash_json constant_env
        (obj (field (codes "a") (bool true) (field (codes "b") (num (codes "1")) end)))
unfolding str_beq
hash_json-same_example =
    hash_json-same constant_env
      (objects (swapped (codes "b") (codes "a") (num (codes "1")) (bool true) end refl))
