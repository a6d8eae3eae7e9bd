-- ===== src/Native/Attention.antt =====
-- What the prototype makes of the states of the linked runs.
use tool_flow.Prelude.{
  codes, Bool, true, false, List, [], ◌∷◌, ◌++◌, ◌≡◌, refl, Str, Option, none, some, find_first,
  ◌≢◌, arith,
}
use tool_flow.Types.{text, obj, field, end}
use tool_flow.Native.Contract.{
  WakeReason, LinkedRunStatus, LinkedToolflowRun, ControllerState, ControllerDecision, BindingCall,
  set_waiting, fail, Bindings, Outside, Outcome, resolve_with, returned, rejection,
  unsupported_transition, answered, Async, ◌>>=◌, return,
}
use tool_flow.Native.{
  map_toolflow_to_controller, status_text, FlowRef, Advanced, waiting_call, review_call, closed,
  advance, reconcile_linked_runs, attend, on_wake, await_approval_of, ask_for_review, stopped_by,
}

-- A run that needs somebody.
abbrev pub needs_attention : LinkedToolflowRun → Bool
needs_attention r = elim r.status [
  | LinkedRunStatus.ready ↦ false
  | LinkedRunStatus.running ↦ false
  | LinkedRunStatus.succeeded ↦ false
  | _ ↦ true
]

-- How a status reads in a text.
abbrev pub word_for : LinkedRunStatus → Str
word_for LinkedRunStatus.ready = codes "ready"
word_for LinkedRunStatus.running = codes "running"
word_for LinkedRunStatus.succeeded = codes "succeeded"
word_for LinkedRunStatus.awaiting_approval = codes "awaiting_approval"
word_for LinkedRunStatus.failed = codes "failed"
word_for LinkedRunStatus.quarantined = codes "quarantined"
word_for LinkedRunStatus.rejected = codes "rejected"
word_for LinkedRunStatus.cancelled = codes "cancelled"

-- The call that a wake ends with for such a run: it sets the flow waiting for the approval of the
-- run, and fails it for any other reason with a text that names the run and its status.
abbrev pub stop_call : FlowRef → LinkedToolflowRun → ControllerState → BindingCall
stop_call f r s = elim r.status [
  | LinkedRunStatus.awaiting_approval ↦
      set_waiting f.flow_id f.revision (codes "awaiting_toolflow_approval") s
        (obj (
          field (codes "kind") (text (codes "approval")) (
            field (codes "system") (text (codes "toolflow"))
              (field (codes "runId") (text r.run_id) end))))
        (some (codes "ToolFlow run " ++ r.run_id ++ codes " requires approval."))
  | other ↦ fail f.flow_id f.revision s (
      codes "ToolFlow run "
      ++ r.run_id
      ++ codes " is "
      ++ word_for other
      ++ codes " and requires controller review.")
]

module _ (b : Bindings) where
  -- The answer came from the call with some number, or was a rejection.
  await_approval_of-call :
      (f : FlowRef) (r : LinkedToolflowRun) (o : Outside)
      → (stopped_by b (await_approval_of b f r) o).1
        ≡ record o { calls = o.calls ++ waiting_call f r o.state ∷ [] }
  unfolding await_approval_of
  await_approval_of-call f r o = ground arith

  ask_for_review-call :
      (f : FlowRef) (r : LinkedToolflowRun) (o : Outside)
      → (stopped_by b (ask_for_review b f r) o).1
        ≡ record o { calls = o.calls ++ review_call f r o.state ∷ [] }
  unfolding ask_for_review closed
  ask_for_review-call f r o = ground arith

  stopped_by-not_none : (m : Async Advanced) (o : Outside) → (stopped_by b m o).0 ≢ returned none
  stopped_by-not_none m o = go (m o).0 (m o).1
    where
      go :
          (r : Outcome Advanced) (v : Outside)
          → (resolve_with r (λ a. return (some a)) v).0 ≢ returned none
      go (returned a) v = λ e. cc
      go rejection v = λ e. cc
      go (unsupported_transition s) v = λ e. cc

  attend-stops :
      (f : FlowRef) (runs : List LinkedToolflowRun) (o : Outside) (run : LinkedToolflowRun)
      → find_first needs_attention runs ≡ some run
      → ((attend b f runs o).1 ≡ record o { calls = o.calls ++ stop_call f run o.state ∷ [] })
        × ((attend b f runs o).0 ≢ returned none)
  unfolding attend map_toolflow_to_controller waiting_call review_call status_text
  attend-stops f [] o run h = absurd (cc)
  attend-stops f (r ∷ rest) o run h = ground (
    arith,
    await_approval_of-call f r o,
    ask_for_review-call f r o,
    stopped_by-not_none (await_approval_of b f r) o,
    stopped_by-not_none (ask_for_review b f r) o,
    attend-stops f rest o run,
  )

  -- If the linked runs can be reconciled and one of them then waits for approval or is blocked, the
  -- wake goes on with one call and no other, for the first such run: it sets the flow waiting for
  -- the run's approval if the run awaits one, and otherwise fails the flow with a text that names
  -- the run and its status. No run is started, whatever the caller would decide.
  pub on_wake-stop :
      (f : FlowRef) (wake : WakeReason)
      (decide : ControllerState → WakeReason → Option ControllerDecision) (o : Outside)
      (s : ControllerState) (run : LinkedToolflowRun)
      → (reconcile_linked_runs b o).0 ≡ returned s
      → find_first needs_attention s.linked_runs ≡ some run
      → (on_wake b f wake decide o).1 ≡ record (reconcile_linked_runs b o).1 {
        calls =
            (reconcile_linked_runs b o).1.calls
            ++ stop_call f run (reconcile_linked_runs b o).1.state ∷ [];
      }
  unfolding on_wake
  on_wake-stop f wake decide o s run e h =
      rw e (go (attend b f s.linked_runs v).0 (attend b f s.linked_runs v).1 stops.0 stops.1)
    where
      v : Outside
      v = (reconcile_linked_runs b o).1

      decided : Option Advanced → Async Advanced
      decided stopped = elim stopped [
        | some a ↦ return a
        | none ↦ do d ← answered (decide s wake); advance b f d
      ]

      stops :
          ((attend b f s.linked_runs v).1
            ≡ record v { calls = v.calls ++ stop_call f run v.state ∷ [] })
          × ((attend b f s.linked_runs v).0 ≢ returned none)
      stops = attend-stops f s.linked_runs v run h

      go :
          (r : Outcome (Option Advanced)) (u : Outside)
          → u ≡ record v { calls = v.calls ++ stop_call f run v.state ∷ [] }
          → r ≢ returned none
          → (resolve_with r decided u).1
            ≡ record v { calls = v.calls ++ stop_call f run v.state ∷ [] }
      go (returned (some a)) u p q = p
      go (returned none) u p q = absurd (q refl)
      go rejection u p q = p
      go (unsupported_transition t) u p q = p
