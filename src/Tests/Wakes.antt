-- ===== src/Tests/Wakes.antt =====
-- The prototype on a flow with three linked runs.
use tool_flow.Prelude.{
  ℕ, List, [], ◌∷◌, ◌++◌, ◌≡◌, refl, Str, codes, Option, none, some, map, length, zero, suc, true,
}
use tool_flow.Types.{undefined}
use tool_flow.World.{ControllerFlowStatus}
use tool_flow.Native.Contract.{
  WakeReason, LinkedRunStatus, LinkedToolflowRun, ControllerState, ControllerDecision,
  get_run_status, RunReply, Bindings, Outside, returned,
}
use tool_flow.Native.{FlowRef, reconcile_linked_runs, on_wake, reconcile_from, refresh}
use tool_flow.Native.Contract.{now}
use tool_flow.Native.Calls.{Once, count}
use tool_flow.Native.Wake.{on_wake-Once}
use tool_flow.Native.Reconciled.{Answered, reconcile_linked_runs-Reconciled}
use tool_flow.Native.Attention.{stop_call, on_wake-stop}

abbrev linked : Str → LinkedRunStatus → LinkedToolflowRun
linked id s = record {
  run_id = id;
  purpose = codes "p";
  status = s;
  workflow_name = none;
  last_seen_at = none;
}

abbrev reply : Str → LinkedRunStatus → RunReply
reply id s = record { run_id = id; state = s; workflow_name = none }

-- The first call is answered by a run that is done, any other by one that waits.
abbrev run_reply : ℕ → Option RunReply
run_reply zero = some (reply (codes "a") LinkedRunStatus.succeeded)
run_reply (suc n) = some (reply (codes "b") LinkedRunStatus.awaiting_approval)

abbrev bindings : Bindings
bindings = record {
  created = λ n. none;
  transition = λ n. none;
  closed = λ n. true;
  run_reply = run_reply;
  clock = λ n. n;
}

abbrev state_with : List LinkedToolflowRun → ControllerState
state_with runs = record {
  goal = codes "g";
  done_definition = codes "d";
  blocker_definition = codes "b";
  plan_version = 1;
  current_objective = codes "o";
  linked_runs = runs;
  pending_decisions = [];
  artifacts = [];
  last_material_progress_at = 0;
}

abbrev outside : Outside
outside = record {
  state = state_with (
      linked (codes "a") LinkedRunStatus.running ∷ linked (codes "b") LinkedRunStatus.running ∷ []);
  calls = [];
  ticks = 0;
}

abbrev flow : FlowRef
flow = record { flow_id = codes "f"; revision = 3 }

abbrev decision : ControllerFlowStatus → ControllerDecision
decision s = record {
  status = s;
  current_step = codes "s";
  state = state_with [];
  wait_json = undefined;
  blocked_summary = none;
  launch_workflow_path = some (codes "w.json");
  launch_purpose = some (codes "p");
}

abbrev decide : ControllerState → WakeReason → Option ControllerDecision
decide s w = some (decision ControllerFlowStatus.running)

abbrev seen : Str → LinkedRunStatus → ℕ → LinkedToolflowRun
seen id s n = record (linked id s) { last_seen_at = some n }

abbrev reconciled : ControllerState
reconciled = state_with (
    seen (codes "a") LinkedRunStatus.succeeded 0
    ∷ seen (codes "b") LinkedRunStatus.awaiting_approval 1
    ∷ [])

reconciles : (reconcile_linked_runs bindings outside).0 ≡ returned reconciled
unfolding reconcile_linked_runs reconcile_from refresh now
reconciles = refl

on_wake-Once_example :
    Once
      (count none outside)
      (on_wake bindings flow WakeReason.fallback_sweep decide outside).0
      (count none (on_wake bindings flow WakeReason.fallback_sweep decide outside).1)
    × Once
        (count (some flow) outside)
        (on_wake bindings flow WakeReason.fallback_sweep decide outside).0
        (count (some flow) (on_wake bindings flow WakeReason.fallback_sweep decide outside).1)
on_wake-Once_example = on_wake-Once bindings flow WakeReason.fallback_sweep decide outside

on_wake-stop_example :
    (on_wake bindings flow WakeReason.fallback_sweep decide outside).1
    ≡ record (reconcile_linked_runs bindings outside).1 {
      calls =
          (reconcile_linked_runs bindings outside).1.calls
          ++ stop_call flow
              (seen (codes "b") LinkedRunStatus.awaiting_approval 1)
              (reconcile_linked_runs bindings outside).1.state
            ∷ [];
    }
on_wake-stop_example =
    on_wake-stop bindings flow WakeReason.fallback_sweep decide outside reconciled
      (seen (codes "b") LinkedRunStatus.awaiting_approval 1) reconciles refl

reconcile_linked_runs-Reconciled_example :
    (reconciled ≡ (reconcile_linked_runs bindings outside).1.state)
    × (news : List LinkedToolflowRun) × (reconciled ≡ record outside.state { linked_runs = news })
    × Answered bindings (length outside.calls) outside.ticks outside.state.linked_runs news
    × ((reconcile_linked_runs bindings outside).1.calls
        ≡ outside.calls ++ map (λ r. get_run_status r.run_id) outside.state.linked_runs)
reconcile_linked_runs-Reconciled_example =
    reconcile_linked_runs-Reconciled bindings outside reconciled reconciles
