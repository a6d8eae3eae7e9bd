-- ===== src/Compiler/Graph.antt =====
-- packages/runtime/src/compiler/build-graph.ts, compile.ts and infer-capabilities.ts. The hashes
-- are taken of the documents as JSON, in the order in which the code writes the fields.
pub mod WellFormed
use tool_flow.Prelude.{
  Bool, true, false, not, ◌||◌, Option, none, some, List, [], ◌∷◌, ◌++◌, map, Str, codes, ◌==◌,
  str_eq, contains, if◌then◌else◌, Table, find_first,
}
use tool_flow.Types.{
  CellId, read, research, session, elevated, Action, apply_patch, exec_command, list_files,
  read_file, research_note, session_note, ReplayClass, read_only, idempotent, review_before_replay,
  unlisted, cell_name, action_name, Json, undefined, bool, num, text, arr, obj, Items, nil, cons,
  Fields, end, field, texts, InputValue, number, boolean, RawWorkflow, WorkflowStepSource,
  WorkflowSource, BridgeId, bridge_v1, cell_eq, action_eq, CompiledStep, CompiledGraph, Result, ok,
  err, ◌>>=◌, unknown_dependency,
}
use tool_flow.Env.{Env}
use tool_flow.Hashing.{hash_json}
use tool_flow.Compiler.Normalize.{normalize_workflow}
use tool_flow.Compiler.Variables.{resolve_variables}
use tool_flow.Compiler.Cycles.{step_ids, detect_cycles}

unfoldable pub replay_name : ReplayClass → Str
replay_name read_only = codes "read_only"
replay_name idempotent = codes "idempotent"
replay_name review_before_replay = codes "review_before_replay"
replay_name (unlisted s) = s

unfoldable pub input_json : InputValue → Json
input_json (InputValue.text s) = text s
input_json (number n) = num n
input_json (boolean b) = bool b

unfoldable pub inputs_json : Table Str InputValue → Fields
inputs_json [] = end
inputs_json ((k, v) ∷ t) = field k (input_json v) (inputs_json t)

unfoldable pub step_json : WorkflowStepSource → Json
step_json s = obj (
    field (codes "id") (text s.id) (
      field (codes "action") (text (action_name s.action)) (
        field (codes "cell") (text (cell_name s.cell)) (
          field (codes "dependsOn") (arr (texts s.depends_on)) (
            field (codes "args") (obj s.args)
              (field (codes "replayClass") (text (replay_name s.replay_class)) end))))))

unfoldable pub steps_json : List WorkflowStepSource → Items
steps_json [] = nil
steps_json (s ∷ ss) = cons (step_json s) (steps_json ss)

unfoldable pub optional_text : Option Str → Json
optional_text none = undefined
optional_text (some s) = text s

unfoldable pub optional_inputs : Option (Table Str InputValue) → Json
unfolding inputs_json
optional_inputs none = undefined
optional_inputs (some t) = obj (inputs_json t)

unfoldable pub source_json : WorkflowSource → Json
source_json w = obj (
    field (codes "schemaVersion") (text (codes "toolflow.workflow/v1")) (
      field (codes "name") (text w.name) (
        field (codes "description") (optional_text w.description) (
          field (codes "inputs") (optional_inputs w.inputs)
            (field (codes "steps") (arr (steps_json w.steps)) end)))))

unfoldable pub bridge_name : BridgeId → Str
bridge_name (bridge_v1 c) = cell_name c ++ codes "-bridge-v1"

unfoldable pub node_json : CompiledStep → Json
node_json n = obj (
    field (codes "id") (text n.id) (
      field (codes "cell") (text (cell_name n.cell)) (
        field (codes "bridgeId") (text (bridge_name n.bridge_id)) (
          field (codes "action") (text (action_name n.action)) (
            field (codes "dependsOn") (arr (texts n.depends_on)) (
              field (codes "payload") (obj n.payload) (
                field (codes "payloadHash") (text n.payload_hash)
                  (field (codes "replayClass") (text (replay_name n.replay_class)) end))))))))

unfoldable pub nodes_json : List CompiledStep → Items
nodes_json [] = nil
nodes_json (n ∷ ns) = cons (node_json n) (nodes_json ns)

unfoldable pub graph_json : Str → Str → List CompiledStep → Json
graph_json name source_hash nodes = obj (
    field (codes "schemaVersion") (text (codes "toolflow.compiled-graph/v1")) (
      field (codes "workflowName") (text name) (
        field (codes "sourceHash") (text source_hash)
          (field (codes "nodes") (arr (nodes_json nodes)) end))))

-- The first dependency that is no step's id.
unfoldable pub find_unknown : List Str → List Str → Option Str
find_unknown ids deps = find_first (λ dep. not (contains ids dep)) deps

unfoldable pub check_dependencies : List Str → List WorkflowStepSource → Result (Unit {0})
unfolding find_unknown
check_dependencies ids [] = ok tt
check_dependencies ids (s ∷ ss) =
    let rest = check_dependencies ids ss in
    elim (find_unknown ids s.depends_on) [
      | some dep ↦ err (unknown_dependency s.id dep)
      | none ↦ rest
    ]

unfoldable pub compile_step : Env → WorkflowStepSource → CompiledStep
compile_step env s = record {
  id = s.id;
  cell = s.cell;
  bridge_id = bridge_v1 s.cell;
  action = s.action;
  depends_on = s.depends_on;
  payload = s.args;
  payload_hash = hash_json env (obj s.args);
  replay_class = s.replay_class;
}

abbrev pub graph_schema_version : Str
graph_schema_version = codes "toolflow.compiled-graph/v1"

unfoldable pub build_graph : Env → WorkflowSource → Result CompiledGraph
build_graph env source = do
  _ ← check_dependencies (step_ids source.steps) source.steps
  _ ← detect_cycles source.steps
  let source_hash = hash_json env (source_json source)
  let nodes = map (compile_step env) source.steps
  ok (record {
    schema_version = graph_schema_version;
    workflow_name = source.name;
    source_hash = source_hash;
    graph_hash = hash_json env (graph_json source.name source_hash nodes);
    nodes = nodes;
  })

unfoldable pub compile_workflow : Env → RawWorkflow → Result (WorkflowSource × CompiledGraph)
compile_workflow env source = do
  normalized ← normalize_workflow source
  resolved ← resolve_variables env normalized
  graph ← build_graph env resolved
  ok (resolved, graph)

-- `[...new Set(values)].sort()`: the values of a fixed list, in their order, that occur.
unfoldable pub cells_used : List CompiledStep → List CellId
cells_used nodes = pick (elevated ∷ read ∷ research ∷ session ∷ [])
  where
    used : CellId → List CompiledStep → Bool
    used c [] = false
    used c (n ∷ ns) = n.cell == c || used c ns

    pick : List CellId → List CellId
    pick [] = []
    pick (c ∷ cs) = if used c nodes then c ∷ pick cs else pick cs

unfoldable pub actions_used : List CompiledStep → List Action
actions_used nodes =
    pick (apply_patch ∷ exec_command ∷ list_files ∷ read_file ∷ research_note ∷ session_note ∷ [])
  where
    used : Action → List CompiledStep → Bool
    used a [] = false
    used a (n ∷ ns) = n.action == a || used a ns

    pick : List Action → List Action
    pick [] = []
    pick (a ∷ rest) = if used a nodes then a ∷ pick rest else pick rest
