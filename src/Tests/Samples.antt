-- ===== src/Tests/Samples.antt =====
-- The data of the tests: an environment of constant functions, a key and a workflow of two steps.
use tool_flow.Prelude.{[], ◌∷◌, codes, none, some, true}
use tool_flow.Types.{
  read, session, read_file, session_note, read_only, idempotent, RawWorkflow, WorkflowSource,
  WorkflowStepSource, CompiledStep, CompiledGraph, bridge_v1, text, end, field, InputValue,
}
use tool_flow.Env.{Env}
use tool_flow.Crypto.{RuntimeKey}
use tool_flow.Compiler.Graph.{graph_schema_version}
use tool_flow.World.{World, Ledger}

abbrev pub constant_env : Env
constant_env = record {
  digest = λ j. codes "d1";
  hmac = λ s j. codes "ab";
  clock = λ n. n;
  random = λ n. codes "t";
  math_random = λ n. codes "0.123456789abcdef";
  iso = λ n. codes "now";
  resolve = λ p. p;
  resolve_in = λ d p. p;
  basename = λ p. p;
  join = λ d p. d;
  cwd = codes "/";
  artifact_path = λ r s. s;
  seconds_as_ms = λ s. none;
  decimal = λ n. codes "0";
  display = λ j. codes "[object]";
  file_text = λ n p. some (codes "x");
  dir_names = λ n p. none;
  file_stat = λ n p. none;
  write_file = λ n p t. true;
  temp_dir = λ n. none;
  spawn = λ n c d t. none;
  inherited_text = λ s. s;
}

abbrev pub test_key : RuntimeKey
test_key = record { key_id = codes "k"; secret = codes "s" }

abbrev pub raw_workflow : RawWorkflow
raw_workflow = record {
  schema_version = codes "toolflow.workflow/v1";
  name = codes "w";
  description = none;
  inputs = some ((codes "dir", InputValue.text (codes "home")) ∷ []);
  steps =
      record {
        id = codes "a";
        action = codes "read_file";
        cell = none;
        depends_on = none;
        args = some (field (codes "path") (text (codes "${inputs.dir}/x")) end);
        replay_class = none;
      }
      ∷ record {
        id = codes "b";
        action = codes "session_note";
        cell = some (codes "session");
        depends_on = some (codes "a" ∷ []);
        args = some (field (codes "prompt") (text (codes "hi")) end);
        replay_class = none;
      }
      ∷ [];
}

abbrev pub read_step : WorkflowStepSource
read_step = record {
  id = codes "a";
  action = read_file;
  cell = read;
  depends_on = [];
  args = field (codes "path") (text (codes "home/x")) end;
  replay_class = read_only;
}

abbrev pub note_step : WorkflowStepSource
note_step = record {
  id = codes "b";
  action = session_note;
  cell = session;
  depends_on = codes "a" ∷ [];
  args = field (codes "prompt") (text (codes "hi")) end;
  replay_class = idempotent;
}

abbrev pub resolved_workflow : WorkflowSource
resolved_workflow = record {
  name = codes "w";
  description = none;
  inputs = some ((codes "dir", InputValue.text (codes "home")) ∷ []);
  steps = read_step ∷ note_step ∷ [];
}

abbrev pub read_node : CompiledStep
read_node = record {
  id = codes "a";
  cell = read;
  bridge_id = bridge_v1 read;
  action = read_file;
  depends_on = [];
  payload = read_step.args;
  payload_hash = codes "d1";
  replay_class = read_only;
}

abbrev pub note_node : CompiledStep
note_node = record {
  id = codes "b";
  cell = session;
  bridge_id = bridge_v1 session;
  action = session_note;
  depends_on = codes "a" ∷ [];
  payload = note_step.args;
  payload_hash = codes "d1";
  replay_class = idempotent;
}

abbrev pub two_step_graph : CompiledGraph
two_step_graph = record {
  schema_version = graph_schema_version;
  workflow_name = codes "w";
  source_hash = codes "d1";
  graph_hash = codes "d1";
  nodes = read_node ∷ note_node ∷ [];
}

abbrev pub no_ledger : Ledger
no_ledger = record {
  workflows = [];
  graphs = [];
  proofs = [];
  policies = [];
  manifests = [];
  grants = [];
  receipts = [];
  approvals = [];
  artifacts = [];
  events = [];
  mirrors = [];
  mirror_indexes = [];
  flows = [];
  flow_indexes = [];
}

abbrev pub world_of : Ledger → World
world_of l = record { ledger = l; directories = []; ticks = 0; draws = 0; effects = 0 }
