-- ===== src/Types/Artifacts.antt =====
-- The documents of a run: policy, manifest, grants, receipts, approvals
-- (packages/shared/src/types/ledger.ts, grants.ts, receipts.ts, approvals.ts, bridges.ts).
-- A time is a number of milliseconds; the ISO texts that the files hold are ordered alike.
use tool_flow.Prelude.{Str, List, Option, Table, ℕ, Bool}
use tool_flow.Types.Enums.{
  CellId, Action, ReplayClass, RunState, StepState, GrantState, ReceiptStatus, PreflightDecision,
}
use tool_flow.Types.Values.{Fields}
use tool_flow.Types.Workflow.{BridgeId}

pub data Profile : Type 0 where
  safe operator_elevated : Profile

pub data BridgeMode : Type 0 where
  same_process_typed_contracts local_private_typed_contracts : BridgeMode

pub record PolicyArtifact : Type 0 where
  pub profile : Profile
  pub policy_hash : Str
  pub allowed_cells : List CellId
  pub allowed_actions_by_cell : CellId → List Action
  pub bridge_mode : BridgeMode
  pub binding_notes : List Str
  pub created_at : ℕ

pub data RiskClass : Type 0 where
  safe elevated : RiskClass

-- The notes that the classifier writes, each with the step that it is about.
pub data Note : Type 0 where
  review_before_replay : Str → Note
  session_semantics : Str → Note
  exact_payload_approval : Str → Note
  unsupported_schema : Note
  no_nodes : Note
  elevated_disabled : Str → Note
  unsupported_cell : CellId → Str → Note
  unsupported_action : Action → Str → Note

pub record ProofBundle : Type 0 where
  pub workflow_name : Str
  pub graph_hash : Str
  pub decision : PreflightDecision
  pub risk_class : RiskClass
  pub required_cells : List CellId
  pub required_actions : List Action
  pub warnings : List Note
  pub objective_failures : List Note
  pub step_count : ℕ
  pub created_at : ℕ
  pub proof_hash : Str

pub record StepManifest : Type 0 where
  pub id : Str
  pub state : StepState
  pub grant_id : Option Str
  pub receipt_id : Option Str
  pub started_at : Option ℕ
  pub ended_at : Option ℕ
  pub output_path : Option Str
  pub error : Option Str

pub record RunManifest : Type 0 where
  pub run_id : Str
  pub workflow_name : Str
  pub state : RunState
  pub created_at : ℕ
  pub updated_at : ℕ
  pub workflow_hash : Str
  pub graph_hash : Str
  pub proof_hash : Str
  pub policy_hash : Str
  pub steps : Table Str StepManifest

pub record StepGrantUnsigned : Type 0 where
  pub grant_id : Str
  pub run_id : Str
  pub step_id : Str
  pub cell_id : CellId
  pub bridge_id : BridgeId
  pub action : Action
  pub payload_hash : Str
  pub policy_hash : Str
  pub approval_hash : Option Str
  pub replay_class : ReplayClass
  pub issued_at : ℕ
  pub expires_at : ℕ
  pub nonce : Str
  pub key_id : Str

pub record StepGrant : Type 0 where
  pub unsigned : StepGrantUnsigned
  pub signature : Str

pub record GrantRecord : Type 0 where
  pub grant : StepGrant
  pub state : GrantState
  pub consumed_at : Option ℕ
  pub receipt_id : Option Str

pub record ReceiptUnsigned : Type 0 where
  pub receipt_id : Str
  pub grant_id : Str
  pub run_id : Str
  pub step_id : Str
  pub bridge_id : BridgeId
  pub payload_hash : Str
  pub policy_hash : Str
  pub status : ReceiptStatus
  pub started_at : ℕ
  pub ended_at : ℕ
  pub output_hash : Option Str
  pub error : Option Str
  pub key_id : Str

pub record Receipt : Type 0 where
  pub unsigned : ReceiptUnsigned
  pub signature : Str

pub record ApprovalBinding : Type 0 where
  pub run_id : Str
  pub step_id : Str
  pub approval_hash : Str
  pub approved_payload_hash : Str
  pub policy_hash : Str
  pub approved_at : ℕ
  pub approved_by : Str

pub record BridgeRequest : Type 0 where
  pub bridge_id : BridgeId
  pub cell_id : CellId
  pub action : Action
  pub payload : Fields
  pub grant : StepGrant

pub record BridgeExecutionResult : Type 0 where
  pub ok : Bool
  pub output : Option Fields
  pub error : Option Str
