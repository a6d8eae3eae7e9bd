-- ===== src/Native.antt =====
-- prototypes/native-taskflow-controller/controller-loop.ts.
pub mod Contract
pub mod Calls
pub mod Wake
pub mod Reconciled
pub mod Attention
use tool_flow.Prelude.{
  ℕ, Bool, true, false, List, [], ◌∷◌, ◌++◌, Str, codes, Option, none, some, or_else, or_option,
}
use tool_flow.Types.{Json, null, undefined, text, obj, end, field}
use tool_flow.World.{ControllerFlowStatus}
use tool_flow.Native.Contract.{
  WakeReason, LinkedRunStatus, LinkedToolflowRun, ControllerState, ControllerDecision, BindingCall,
  create_managed, set_waiting, resume, finish, fail, start_run, get_run_status, FlowHandle, Applied,
  RunReply, Bindings, Async, ◌>>=◌, ◌>>◌, return, unsupported, answered, call, get_state, set_state,
  now,
}

pub data ControllerView : Type 0 where
  running waiting blocked : ControllerView

unfoldable pub map_toolflow_to_controller : LinkedRunStatus → ControllerView
map_toolflow_to_controller LinkedRunStatus.ready = running
map_toolflow_to_controller LinkedRunStatus.running = running
map_toolflow_to_controller LinkedRunStatus.awaiting_approval = waiting
map_toolflow_to_controller LinkedRunStatus.failed = blocked
map_toolflow_to_controller LinkedRunStatus.quarantined = blocked
map_toolflow_to_controller LinkedRunStatus.rejected = blocked
map_toolflow_to_controller LinkedRunStatus.cancelled = blocked
map_toolflow_to_controller LinkedRunStatus.succeeded = running

unfoldable pub status_text : LinkedRunStatus → Str
status_text LinkedRunStatus.ready = codes "ready"
status_text LinkedRunStatus.running = codes "running"
status_text LinkedRunStatus.awaiting_approval = codes "awaiting_approval"
status_text LinkedRunStatus.failed = codes "failed"
status_text LinkedRunStatus.quarantined = codes "quarantined"
status_text LinkedRunStatus.rejected = codes "rejected"
status_text LinkedRunStatus.cancelled = codes "cancelled"
status_text LinkedRunStatus.succeeded = codes "succeeded"

pub record CreateInput : Type 0 where
  pub controller_id : Str
  pub goal : Str
  pub done_definition : Str
  pub blocker_definition : Str
  pub first_step : Str
  pub first_objective : Str

-- The flow and the revision that a caller of `advance` or `onWake` works on.
pub record FlowRef : Type 0 where
  pub flow_id : Str
  pub revision : ℕ

-- `{ applied: true }`, or what the binding answered.
pub data Advanced : Type 0 where
  answer : Applied → Advanced
  applied_true : Advanced

-- A text that is there and not empty.
abbrev pub filled : Option Str → Bool
filled (some (c ∷ s)) = true
filled _ = false

-- `decision.waitJson ?? { kind: "manual", reason: ... }`
unfoldable pub wait_or_manual : Json → Json
wait_or_manual w = elim w [ null ↦ manual_wait | undefined ↦ manual_wait | other ↦ other ]
  where
    manual_wait : Json
    manual_wait = obj (
        field (codes "kind") (text (codes "manual"))
          (field (codes "reason") (text (codes "controller omitted explicit waitJson")) end))

unfoldable pub waiting_call : FlowRef → LinkedToolflowRun → ControllerState → BindingCall
waiting_call f run s =
    set_waiting f.flow_id f.revision (codes "awaiting_toolflow_approval") s
      (obj (
        field (codes "kind") (text (codes "approval")) (
          field (codes "system") (text (codes "toolflow"))
            (field (codes "runId") (text run.run_id) end))))
      (some (codes "ToolFlow run " ++ run.run_id ++ codes " requires approval."))

unfoldable pub review_call : FlowRef → LinkedToolflowRun → ControllerState → BindingCall
unfolding status_text
review_call f run s = fail f.flow_id f.revision s (
    codes "ToolFlow run "
    ++ run.run_id
    ++ codes " is "
    ++ status_text run.status
    ++ codes " and requires controller review.")

module _ (b : Bindings) where
  unfoldable pub create : CreateInput → Async FlowHandle
  unfolding now
  create input = do
    at ← now b
    n ← call (
        create_managed input.controller_id input.goal input.first_step (record {
          goal = input.goal;
          done_definition = input.done_definition;
          blocker_definition = input.blocker_definition;
          plan_version = 1;
          current_objective = input.first_objective;
          linked_runs = [];
          pending_decisions = [];
          artifacts = [];
          last_material_progress_at = at;
        }))
    answered (b.created n)

  unfoldable pub launch : (path purpose : Str) → Async (Unit {0})
  unfolding now
  launch path purpose = do
    n ← call (start_run path purpose)
    child ← answered (b.run_reply n)
    at ← now b
    s ← get_state
    let linked : LinkedToolflowRun = record {
      run_id = child.run_id;
      purpose = purpose;
      status = child.state;
      workflow_name = child.workflow_name;
      last_seen_at = some at;
    }
    set_state (record s { linked_runs = s.linked_runs ++ linked ∷ [] })

  -- A launch needs a path and a purpose that are not empty.
  unfoldable pub launch_if_asked : Option Str → Option Str → Async (Unit {0})
  unfolding launch
  launch_if_asked (some (c ∷ path)) (some (d ∷ purpose)) = launch (c ∷ path) (d ∷ purpose)
  launch_if_asked _ _ = return tt

  unfoldable pub closed : ℕ → Async Advanced
  closed n = elim (b.closed n) [ true ↦ return applied_true | false ↦ answered none ]

  unfoldable pub fail_flow : FlowRef → Option Str → Async Advanced
  unfolding closed
  fail_flow f summary = do
    s ← get_state
    n ← call (
        fail f.flow_id f.revision s
          (or_else summary (codes "controller marked the flow blocked without a detailed summary")))
    closed n

  -- The transition that the decision's status asks for.
  unfoldable pub transition_to :
      FlowRef → ControllerDecision → ControllerFlowStatus → Async Advanced
  unfolding closed wait_or_manual fail_flow
  transition_to f d ControllerFlowStatus.running = do
    s ← get_state
    n ← call (resume f.flow_id f.revision d.current_step s)
    a ← answered (b.transition n)
    return (answer a)
  transition_to f d ControllerFlowStatus.waiting = do
    s ← get_state
    n ← call (
        set_waiting f.flow_id f.revision d.current_step s (wait_or_manual d.wait_json)
          d.blocked_summary)
    a ← answered (b.transition n)
    return (answer a)
  transition_to f d ControllerFlowStatus.done = do
    s ← get_state
    n ← call (finish f.flow_id f.revision s)
    closed n
  transition_to f d ControllerFlowStatus.failed = fail_flow f d.blocked_summary
  transition_to f d ControllerFlowStatus.blocked = fail_flow f d.blocked_summary
  transition_to f d ControllerFlowStatus.cancelled = unsupported ControllerFlowStatus.cancelled

  unfoldable pub advance : FlowRef → ControllerDecision → Async Advanced
  advance f d = do
    launch_if_asked d.launch_workflow_path d.launch_purpose
    transition_to f d d.status

  -- One round of the loop, for the run at a place of the list.
  unfoldable pub refresh : LinkedToolflowRun → Async LinkedToolflowRun
  unfolding now
  refresh run = do
    n ← call (get_run_status run.run_id)
    latest ← answered (b.run_reply n)
    at ← now b
    return (record run {
      status = latest.state;
      workflow_name = or_option latest.workflow_name run.workflow_name;
      last_seen_at = some at;
    })

  -- `for (const run of state.linkedRuns) { ... }`: the runs before `rest` are refreshed already.
  unfoldable pub reconcile_from : (done rest : List LinkedToolflowRun) → Async (Unit {0})
  unfolding refresh
  reconcile_from done [] = return tt
  reconcile_from done (run ∷ rest) = do
    run ← refresh run
    s ← get_state
    set_state (record s { linked_runs = done ++ run ∷ rest })
    reconcile_from (done ++ run ∷ []) rest

  unfoldable pub reconcile_linked_runs : Async ControllerState
  reconcile_linked_runs = do s ← get_state; reconcile_from [] s.linked_runs; get_state

  -- The wake stops at a run that waits for approval.
  unfoldable pub await_approval_of : FlowRef → LinkedToolflowRun → Async Advanced
  await_approval_of f run = do
    s ← get_state
    n ← call (waiting_call f run s)
    a ← answered (b.transition n)
    return (answer a)

  -- The wake stops at a run that is blocked.
  unfoldable pub ask_for_review : FlowRef → LinkedToolflowRun → Async Advanced
  unfolding closed
  ask_for_review f run = do s ← get_state; n ← call (review_call f run s); closed n

  abbrev pub stopped_by : Async Advanced → Async (Option Advanced)
  stopped_by m = do a ← m; return (some a)

  -- `for (const run of reconciled.linkedRuns) { ... }` of a wake: the first run that waits or is
  -- blocked decides.
  unfoldable pub attend : FlowRef → List LinkedToolflowRun → Async (Option Advanced)
  attend f [] = return none
  attend f (run ∷ rest) = elim (map_toolflow_to_controller run.status) [
    | waiting ↦ stopped_by (await_approval_of f run)
    | blocked ↦ stopped_by (ask_for_review f run)
    | running ↦ attend f rest
  ]

  -- `decideNext` is the caller's; `none` is a promise that is rejected.
  unfoldable pub on_wake :
      FlowRef
      → WakeReason
      → (ControllerState → WakeReason → Option ControllerDecision)
      → Async Advanced
  on_wake f wake decide_next = do
    s ← reconcile_linked_runs
    stopped ← attend f s.linked_runs
    elim stopped [ some a ↦ return a | none ↦ do d ← answered (decide_next s wake); advance f d ]
