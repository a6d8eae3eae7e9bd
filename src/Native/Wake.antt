-- ===== src/Native/Wake.antt =====
-- How many transitions a wake of the prototype asks for.
use tool_flow.Prelude.{
  ℕ, ◌+◌, ◌≤◌, true, List, [], ◌∷◌, ◌++◌, ◌≡◌, refl, subst, Str, Option, none, some, arith, str_eq,
  nat_eq, beq_self,
}
use tool_flow.World.{ControllerFlowStatus}
use tool_flow.Native.Contract.{
  WakeReason, LinkedToolflowRun, ControllerState, ControllerDecision, BindingCall, Bindings,
  Outside, Outcome, resolve_with, returned, rejection, unsupported_transition, Async, ◌>>=◌, return,
  answered, call, get_state,
}
use tool_flow.Native.{
  ControllerView, running, waiting, blocked, map_toolflow_to_controller, FlowRef, Advanced, answer,
  await_approval_of, ask_for_review, stopped_by, waiting_call, review_call, launch, launch_if_asked,
  closed, fail_flow, transition_to, advance, refresh, reconcile_from, reconcile_linked_runs, attend,
  on_wake,
}
use tool_flow.Native.Calls.{
  is_counted, is_transition_of, count, Silent, Once, Single, silent_rules, Silent-answered,
  Silent-bind, Single-after, Silent-get_state, Silent-set_state,
}

module _ (b : Bindings) (f : FlowRef) (k : Option FlowRef)
    (own_flow : is_counted k f.flow_id f.revision ≡ true) where
  refresh-Silent : (run : LinkedToolflowRun) → Silent k (refresh b run)
  unfolding refresh
  refresh-Silent run = search silent_rules

  reconcile_from-Silent :
      (done rest : List LinkedToolflowRun) → Silent k (reconcile_from b done rest)
  unfolding reconcile_from
  reconcile_from-Silent done [] = search silent_rules
  reconcile_from-Silent done (run ∷ rest) = Silent-bind k _ _ (refresh-Silent run) λ run.
      Silent-bind k _ _ (Silent-get_state k) λ s.
        Silent-bind k _ _ (Silent-set_state k _) λ _. reconcile_from-Silent (done ++ run ∷ []) rest

  reconcile_linked_runs-Silent : Silent k (reconcile_linked_runs b)
  unfolding reconcile_linked_runs
  reconcile_linked_runs-Silent = search (silent_rules, reconcile_from-Silent)

  closed-Silent : (n : ℕ) → Silent k (closed b n)
  unfolding closed
  closed-Silent n = record { at = λ o. ground arith }

  launch-Silent : (path purpose : Str) → Silent k (launch b path purpose)
  unfolding launch
  launch-Silent path purpose = search silent_rules depth 12

  launch_if_asked-Silent : (path purpose : Option Str) → Silent k (launch_if_asked b path purpose)
  unfolding launch_if_asked
  launch_if_asked-Silent (some (c ∷ path)) (some (d ∷ purpose)) =
      launch-Silent (c ∷ path) (d ∷ purpose)
  launch_if_asked-Silent (some (c ∷ path)) (some []) = search silent_rules
  launch_if_asked-Silent (some (c ∷ path)) none = search silent_rules
  launch_if_asked-Silent (some []) purpose = search silent_rules
  launch_if_asked-Silent none purpose = search silent_rules

  closed_after-Single :
      (c : ControllerState → BindingCall)
      → ((s : ControllerState) → is_transition_of k (c s) ≡ true)
      → Single k (do s ← get_state; n ← call (c s); closed b n)
  closed_after-Single c own = search (silent_rules, closed-Silent, own)

  answered_after-Single :
      (c : ControllerState → BindingCall)
      → ((s : ControllerState) → is_transition_of k (c s) ≡ true)
      → Single k
          (do s ← get_state; n ← call (c s); a ← answered (b.transition n); return (answer a))
  answered_after-Single c own = search (silent_rules, own)

  await_approval_of-Single : (run : LinkedToolflowRun) → Single k (await_approval_of b f run)
  unfolding await_approval_of waiting_call
  await_approval_of-Single run = answered_after-Single (waiting_call f run) (λ s. own_flow)

  ask_for_review-Single : (run : LinkedToolflowRun) → Single k (ask_for_review b f run)
  unfolding ask_for_review review_call
  ask_for_review-Single run = closed_after-Single (review_call f run) (λ s. own_flow)

  transition_to-Single :
      (d : ControllerDecision) (s : ControllerFlowStatus) → Single k (transition_to b f d s)
  unfolding transition_to fail_flow
  transition_to-Single d ControllerFlowStatus.running = answered_after-Single _ (λ s. own_flow)
  transition_to-Single d ControllerFlowStatus.waiting = answered_after-Single _ (λ s. own_flow)
  transition_to-Single d ControllerFlowStatus.done = closed_after-Single _ (λ s. own_flow)
  transition_to-Single d ControllerFlowStatus.failed = closed_after-Single _ (λ s. own_flow)
  transition_to-Single d ControllerFlowStatus.blocked = closed_after-Single _ (λ s. own_flow)
  transition_to-Single d ControllerFlowStatus.cancelled = record { at = λ o. omega arith }

  advance-Single : (d : ControllerDecision) → Single k (advance b f d)
  unfolding advance
  advance-Single d =
      Single-after k _ _ (launch_if_asked-Silent d.launch_workflow_path d.launch_purpose)
        (λ _. transition_to-Single d d.status)

  -- What the loop over the linked runs adds: a transition if it stops.
  abbrev Attended : ℕ → Outcome (Option Advanced) → ℕ → Type 0
  Attended n (returned none) k = k ≡ n
  Attended n (returned (some a)) k = k ≡ n + 1
  Attended n rejection k = k ≤ n + 1
  Attended n (unsupported_transition s) k = k ≤ n + 1

  stopped_by-Attended :
      (m : Async Advanced) (o : Outside)
      → Single k m
      → Attended (count k o) (stopped_by b m o).0 (count k (stopped_by b m o).1)
  stopped_by-Attended m o h = go (m o).0 (m o).1 (h.at o)
    where
      go :
          (r : Outcome Advanced) (v : Outside)
          → Once (count k o) r (count k v)
          → Attended
              (count k o)
              (resolve_with r (λ a. return (some a)) v).0
              (count k (resolve_with r (λ a. return (some a)) v).1)
      go (returned a) v e = e
      go rejection v e = e
      go (unsupported_transition s) v e = e

  attend-Attended :
      (runs : List LinkedToolflowRun) (o : Outside)
      → Attended (count k o) (attend b f runs o).0 (count k (attend b f runs o).1)
  unfolding attend
  attend-Attended [] o = refl
  attend-Attended (run ∷ rest) o =
      go (map_toolflow_to_controller run.status) (attend-Attended rest o)
    where
      step : ControllerView → Async (Option Advanced)
      step v = elim v [
        | waiting ↦ stopped_by b (await_approval_of b f run)
        | blocked ↦ stopped_by b (ask_for_review b f run)
        | running ↦ attend b f rest
      ]

      go :
          (v : ControllerView)
          → Attended (count k o) (attend b f rest o).0 (count k (attend b f rest o).1)
          → Attended (count k o) (step v o).0 (count k (step v o).1)
      go running h = h
      go waiting h =
          stopped_by-Attended (await_approval_of b f run) o (await_approval_of-Single run)
      go blocked h = stopped_by-Attended (ask_for_review b f run) o (ask_for_review-Single run)

  wake_counted :
      (wake : WakeReason) (decide : ControllerState → WakeReason → Option ControllerDecision)
      (o : Outside)
      → Once (count k o) (on_wake b f wake decide o).0 (count k (on_wake b f wake decide o).1)
  unfolding on_wake
  wake_counted wake decide o = (Single-after k _ _ reconcile_linked_runs-Silent after).at o
    where
      decided : ControllerState → Option Advanced → Async Advanced
      decided s stopped = elim stopped [
        | some a ↦ return a
        | none ↦ do d ← answered (decide s wake); advance b f d
      ]

      go :
          (s : ControllerState) (v : Outside) (r : Outcome (Option Advanced)) (u : Outside)
          → Attended (count k v) r (count k u)
          → Once
              (count k v)
              (resolve_with r (decided s) u).0
              (count k (resolve_with r (decided s) u).1)
      go s v (returned (some a)) u e = e
      go s v (returned none) u e =
          subst (λ n. Once n (decided s none u).0 (count k (decided s none u).1)) e
            ((Single-after k _ _ (Silent-answered k (decide s wake)) advance-Single).at u)
      go s v rejection u e = e
      go s v (unsupported_transition t) u e = e

      after : (s : ControllerState) → Single k (attend b f s.linked_runs >>= decided s)
      after s = record {
        at = λ v.
            go s v (attend b f s.linked_runs v).0 (attend b f s.linked_runs v).1
              (attend-Attended s.linked_runs v);
      }

-- A wake that returns has asked for exactly one transition, of whatever flow, and this is one of the
-- flow from the revision that it was given; a wake that fails has asked for at most one. So it is
-- whatever the bindings answer and the caller decides.
pub on_wake-Once :
    (b : Bindings) (f : FlowRef) (wake : WakeReason)
    (decide : ControllerState → WakeReason → Option ControllerDecision) (o : Outside)
    → Once (count none o) (on_wake b f wake decide o).0 (count none (on_wake b f wake decide o).1)
      × Once
          (count (some f) o)
          (on_wake b f wake decide o).0
          (count (some f) (on_wake b f wake decide o).1)
on_wake-Once b f wake decide o =
    (wake_counted b f none refl wake decide o, wake_counted b f (some f) own wake decide o)
  where
    own : is_counted (some f) f.flow_id f.revision ≡ true
    own = ground (arith, beq_self f.flow_id, beq_self f.revision)
