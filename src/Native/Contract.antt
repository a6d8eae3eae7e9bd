-- ===== src/Native/Contract.antt =====
-- prototypes/native-taskflow-controller/controller-contract.ts, and the two bindings as what they
-- answer: a binding is code of its users. The status of a flow is that of the runtime's controller,
-- which has the same constructors.
use tool_flow.Prelude.{ℕ, suc, Bool, List, [], ◌∷◌, ◌++◌, Str, Option, none, some, length}
use tool_flow.Types.{Json}
use tool_flow.World.{ControllerFlowStatus}

pub data WakeReason : Type 0 where
  toolflow_completed : (run_id : Str) → WakeReason
  toolflow_approval_required : (run_id : Str) (step_id : Option Str) → WakeReason
  time : (wake_at : Str) → WakeReason
  external_reply : (channel thread_key : Str) → WakeReason
  manual : (actor : Str) → WakeReason
  fallback_sweep : WakeReason

pub data LinkedRunStatus : Type 0 where
  ready running awaiting_approval succeeded failed quarantined : LinkedRunStatus
  cancelled rejected : LinkedRunStatus

pub record LinkedToolflowRun : Type 0 where
  pub run_id : Str
  pub purpose : Str
  pub status : LinkedRunStatus
  pub workflow_name : Option Str
  pub last_seen_at : Option ℕ

pub record ControllerState : Type 0 where
  pub goal : Str
  pub done_definition : Str
  pub blocker_definition : Str
  pub plan_version : ℕ
  pub current_objective : Str
  pub linked_runs : List LinkedToolflowRun
  pub pending_decisions : List Str
  pub artifacts : List Str
  pub last_material_progress_at : ℕ

-- `wait_json` is `undefined` where the decision has none.
pub record ControllerDecision : Type 0 where
  pub status : ControllerFlowStatus
  pub current_step : Str
  pub state : ControllerState
  pub wait_json : Json
  pub blocked_summary : Option Str
  pub launch_workflow_path : Option Str
  pub launch_purpose : Option Str

-- A call of a binding with what it is given.
pub data BindingCall : Type 0 where
  create_managed : (controller_id goal current_step : Str) → ControllerState → BindingCall
  set_waiting :
      (flow_id : Str) (expected_revision : ℕ) (current_step : Str)
      → ControllerState
      → (wait : Json) → (blocked_summary : Option Str) → BindingCall
  resume :
      (flow_id : Str) (expected_revision : ℕ) (current_step : Str) → ControllerState → BindingCall
  finish : (flow_id : Str) (expected_revision : ℕ) → ControllerState → BindingCall
  fail :
      (flow_id : Str) (expected_revision : ℕ)
      → ControllerState
      → (blocked_summary : Str) → BindingCall
  start_run : (workflow_path purpose : Str) → BindingCall
  get_run_status : (run_id : Str) → BindingCall

pub record FlowHandle : Type 0 where
  pub flow_id : Str
  pub revision : ℕ

pub record Applied : Type 0 where
  pub applied : Bool
  pub flow : FlowHandle
  pub state : ControllerState

pub record RunReply : Type 0 where
  pub run_id : Str
  pub state : LinkedRunStatus
  pub workflow_name : Option Str

-- What the bindings answer to the n-th call, if it is one of the kind; `none`, or `false`, is a
-- promise that is rejected. The clock is read by its own count.
pub record Bindings : Type 0 where
  pub created : ℕ → Option FlowHandle
  pub transition : ℕ → Option Applied
  pub closed : ℕ → Bool
  pub run_reply : ℕ → Option RunReply
  pub clock : ℕ → ℕ

-- The caller's state object, which the code changes in place, the calls made so far and how often
-- the clock was read.
pub record Outside : Type 0 where
  pub state : ControllerState
  pub calls : List BindingCall
  pub ticks : ℕ

pub data Outcome (A : Type 0) : Type 0 where
  returned : A → Outcome A
  rejection : Outcome A
  unsupported_transition : ControllerFlowStatus → Outcome A

-- An async method; what it did before a rejection stays done.
abbrev pub Async : Type 0 → Type 0
Async A = Outside → Outcome A × Outside

abbrev pub resolve_with : {A B : Type 0} → Outcome A → (A → Async B) → Async B
resolve_with (returned a) f o = f a o
resolve_with rejection f o = (rejection, o)
resolve_with (unsupported_transition s) f o = (unsupported_transition s, o)

infixl 5 ◌>>=◌ ◌>>◌
abbrev pub ◌>>=◌ : {A B : Type 0} → Async A → (A → Async B) → Async B
◌>>=◌ m f o = resolve_with (m o).0 f (m o).1

abbrev pub ◌>>◌ : {A B : Type 0} → Async A → Async B → Async B
m >> n = m >>= λ _. n

abbrev pub return : {A : Type 0} → A → Async A
return a o = (returned a, o)

abbrev pub unsupported : {A : Type 0} → ControllerFlowStatus → Async A
unsupported s o = (unsupported_transition s, o)

abbrev pub answered : {A : Type 0} → Option A → Async A
answered none o = (rejection, o)
answered (some a) o = (returned a, o)

-- A call of a binding: its number, which is that of the answer.
abbrev pub call : BindingCall → Async ℕ
call c o = (returned (length o.calls), record o { calls = o.calls ++ c ∷ [] })

abbrev pub get_state : Async ControllerState
get_state o = (returned o.state, o)

abbrev pub set_state : ControllerState → Async (Unit {0})
set_state s o = (returned tt, record o { state = s })

unfoldable pub now : Bindings → Async ℕ
now b o = (returned (b.clock o.ticks), record o { ticks = suc o.ticks })
