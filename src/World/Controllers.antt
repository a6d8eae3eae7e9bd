-- ===== src/World/Controllers.antt =====
-- The records of packages/runtime/src/control-plane/taskflow-controller.ts.
use tool_flow.Prelude.{ℕ, List, Str, Option}
use tool_flow.Types.{RunState, Json}
use tool_flow.World.Documents.{MirroredTaskflowState}

pub data ControllerFlowStatus : Type 0 where
  running waiting blocked done failed cancelled : ControllerFlowStatus

pub record ControllerLinkedRun : Type 0 where
  pub run_id : Str
  pub workflow_path : Str
  pub purpose : Str
  pub run_state : RunState
  pub mirrored_taskflow_state : MirroredTaskflowState
  pub attached_at : ℕ
  pub updated_at : ℕ

-- `wait_json` is `undefined` where the record has none.
pub record ControllerFlowRecord : Type 0 where
  pub flow_id : Str
  pub goal : Str
  pub done_definition : Str
  pub blocker_definition : Str
  pub controller_id : Str
  pub status : ControllerFlowStatus
  pub current_step : Str
  pub next_action : Str
  pub wait_json : Json
  pub blocked_summary : Option Str
  pub linked_runs : List ControllerLinkedRun
  pub artifacts : List Str
  pub created_at : ℕ
  pub updated_at : ℕ
  pub last_material_progress_at : ℕ
  pub terminal_summary : Option Str

-- An entry of the index.
pub record ControllerFlow : Type 0 where
  pub flow_id : Str
  pub goal : Str
  pub status : ControllerFlowStatus
  pub current_step : Str
  pub updated_at : ℕ

pub record ControllerIndex : Type 0 where
  pub updated_at : ℕ
  pub flows : List ControllerFlow
