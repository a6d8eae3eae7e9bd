-- ===== src/Types/Workflow.antt =====
-- Workflow sources and compiled graphs (packages/shared/src/types/workflow.ts).
use tool_flow.Prelude.{Bool, Str, List, Option, Table}
use tool_flow.Types.Enums.{CellId, Action, ReplayClass}
use tool_flow.Types.Values.{Fields}

-- `string | number | boolean`; a number is kept as its text
pub data InputValue : Type 0 where
  text number : Str → InputValue
  boolean : Bool → InputValue

-- A step as the workflow file gives it: nothing of it is checked yet.
pub record RawStep : Type 0 where
  pub id : Str
  pub action : Str
  pub cell : Option Str
  pub depends_on : Option (List Str)
  pub args : Option Fields
  pub replay_class : Option Str

pub record RawWorkflow : Type 0 where
  pub schema_version : Str
  pub name : Str
  pub description : Option Str
  pub inputs : Option (Table Str InputValue)
  pub steps : List RawStep

-- A step whose names are checked and whose defaults are filled in.
pub record WorkflowStepSource : Type 0 where
  pub id : Str
  pub action : Action
  pub cell : CellId
  pub depends_on : List Str
  pub args : Fields
  pub replay_class : ReplayClass

pub record WorkflowSource : Type 0 where
  pub name : Str
  pub description : Option Str
  pub inputs : Option (Table Str InputValue)
  pub steps : List WorkflowStepSource

-- `${cell}-bridge-v1`
pub data BridgeId : Type 0 where
  bridge_v1 : CellId → BridgeId

pub record CompiledStep : Type 0 where
  pub id : Str
  pub cell : CellId
  pub bridge_id : BridgeId
  pub action : Action
  pub depends_on : List Str
  pub payload : Fields
  pub payload_hash : Str
  pub replay_class : ReplayClass

pub record CompiledGraph : Type 0 where
  pub schema_version : Str
  pub workflow_name : Str
  pub source_hash : Str
  pub graph_hash : Str
  pub nodes : List CompiledStep
