-- ===== src/World/Documents.antt =====
-- The records that the runtime shows to others: the mirror's (packages/runtime/src/control-plane/
-- taskflow-mirror.ts) and the output of a step (artifacts/<step>.output.json).
use tool_flow.Prelude.{ℕ, List, Str, Option, Table}
use tool_flow.Types.{RunState, StepState, ReceiptStatus, Fields}

pub data MirroredTaskflowState : Type 0 where
  running waiting blocked done cancelled : MirroredTaskflowState

pub record WaitingOn : Type 0 where
  pub step_id : Str

-- What a run is blocked on, for the text of `blockedSummary`.
pub data BlockedSummary : Type 0 where
  step_failed : Str → BlockedSummary
  run_quarantined : Str → BlockedSummary

pub record TaskflowMirrorRecord : Type 0 where
  pub run_id : Str
  pub workflow_name : Str
  pub run_state : RunState
  pub mirrored_taskflow_state : MirroredTaskflowState
  pub current_step : Option Str
  pub waiting_on : Option WaitingOn
  pub blocked_summary : Option BlockedSummary
  pub done_summary : Option Str
  pub updated_at : ℕ
  pub step_states : Table Str StepState

pub record MirrorRun : Type 0 where
  pub run_id : Str
  pub workflow_name : Str
  pub run_state : RunState
  pub mirrored_taskflow_state : MirroredTaskflowState
  pub updated_at : ℕ

pub record TaskflowMirrorIndex : Type 0 where
  pub updated_at : ℕ
  pub runs : List MirrorRun

-- `artifacts/<step>.output.json`
pub record StepOutput : Type 0 where
  pub receipt_id : Str
  pub step_id : Str
  pub status : ReceiptStatus
  pub output : Option Fields
