-- ===== src/Native/Reconciled.antt =====
-- What the prototype learns of the linked runs.
use tool_flow.Prelude.{
  ℕ, suc, List, [], ◌∷◌, ◌++◌, ◌≡◌, refl, ◌∙◌, sym, some, length, map, or_option, ap, subst,
  append_assoc, append-nil, Option-cases, inl, inr,
}
use tool_flow.Native.Contract.{
  LinkedToolflowRun, ControllerState, get_run_status, RunReply, Bindings, Outside, Outcome,
  resolve_with, returned, rejection, unsupported_transition, get_state, now,
}
use tool_flow.Native.{refresh, reconcile_from, reconcile_linked_runs}

length-append : {A : Type 0} (xs : List A) (x : A) → length (xs ++ x ∷ []) ≡ suc (length xs)
length-append [] x = refl
length-append (y ∷ ys) x = ap suc (length-append ys x)

module _ (b : Bindings) where
  -- The linked runs after a reconciliation that asked for the first of them by call `n`
  -- and then read the clock for the time `t`.
  abbrev pub Answered : (n ticks : ℕ) → List LinkedToolflowRun → List LinkedToolflowRun → Type 0
  Answered n t [] [] = Unit
  Answered n t (old ∷ olds) (new ∷ news) =
      ((reply : RunReply) × (b.run_reply n ≡ some reply)
        × (new.run_id ≡ old.run_id)
        × (new.purpose ≡ old.purpose)
        × (new.status ≡ reply.state)
        × (new.workflow_name ≡ or_option reply.workflow_name old.workflow_name)
        × (new.last_seen_at ≡ some (b.clock t)))
      × Answered (suc n) (suc t) olds news
  Answered n t _ _ = ⊥

  -- A reconciliation of `rest`, with the runs before it done.
  abbrev Reconciled : (done rest : List LinkedToolflowRun) → Outside → Outside → Type 0
  Reconciled done rest o v =
      (news : List LinkedToolflowRun) × (v.state ≡ record o.state { linked_runs = done ++ news })
      × Answered (length o.calls) o.ticks rest news
      × (v.calls ≡ o.calls ++ map (λ r. get_run_status r.run_id) rest)

  abbrev refreshed : LinkedToolflowRun → RunReply → Outside → LinkedToolflowRun
  refreshed run reply o = record run {
    status = reply.state;
    workflow_name = or_option reply.workflow_name run.workflow_name;
    last_seen_at = some (b.clock o.ticks);
  }

  -- The state after the first run is refreshed.
  abbrev next_outside :
      (done rest : List LinkedToolflowRun) → LinkedToolflowRun → RunReply → Outside → Outside
  next_outside done rest run reply o = record {
    state = record o.state { linked_runs = done ++ refreshed run reply o ∷ rest };
    calls = o.calls ++ get_run_status run.run_id ∷ [];
    ticks = suc o.ticks;
  }

  Reconciled-cons :
      (done rest : List LinkedToolflowRun) (run : LinkedToolflowRun) (reply : RunReply)
      (o v : Outside)
      → b.run_reply (length o.calls) ≡ some reply
      → Reconciled (done ++ refreshed run reply o ∷ []) rest (next_outside done rest run reply o) v
      → Reconciled done (run ∷ rest) o v
  Reconciled-cons done rest run reply o v e (news, state, answers, calls) = (
    refreshed run reply o ∷ news,
    state
        ∙ ap (λ (l : List LinkedToolflowRun). record o.state { linked_runs = l })
            (append_assoc done (refreshed run reply o ∷ []) news),
    (
      (reply, e, refl, refl, refl, refl, refl),
      subst (λ n. Answered n (suc o.ticks) rest news)
          (length-append o.calls (get_run_status run.run_id)) answers,
    ),
    calls ∙ append_assoc o.calls (get_run_status run.run_id ∷ []) _,
  )

  reconcile_from-Reconciled :
      (done rest : List LinkedToolflowRun) (o : Outside)
      → o.state.linked_runs ≡ done ++ rest
      → (reconcile_from b done rest o).0 ≡ returned tt
      → Reconciled done rest o (reconcile_from b done rest o).1
  unfolding reconcile_from refresh now
  reconcile_from-Reconciled done [] o h = λ e. (
    [],
    ap (λ (l : List LinkedToolflowRun). record o.state { linked_runs = l }) h,
    tt,
    sym (append-nil o.calls),
  )
  reconcile_from-Reconciled done (run ∷ rest) o h =
      elim (Option-cases (b.run_reply (length o.calls))) [
        | inl none_left ↦ rw none_left (λ e. absurd (cc))
        | inr (reply, found) ↦ rw found λ e.
            Reconciled-cons done rest run reply o
              (reconcile_from b (done ++ refreshed run reply o ∷ []) rest
                (next_outside done rest run reply o)).1
              found
              (reconcile_from-Reconciled (done ++ refreshed run reply o ∷ []) rest
                (next_outside done rest run reply o)
                (sym (append_assoc done (refreshed run reply o ∷ []) rest)) e)
      ]

  -- If the linked runs can be reconciled, each was asked for once, in their order and in no other
  -- call, and the linked runs of the caller's state, which is otherwise as it was, are changed: they
  -- are the same runs for the same purposes in the same order, each with the status of the answer
  -- to its own call, the workflow name of the answer or else the one it had, and the time at which
  -- the clock was read for it.
  pub reconcile_linked_runs-Reconciled :
      (o : Outside) (s : ControllerState)
      → (reconcile_linked_runs b o).0 ≡ returned s
      → (s ≡ (reconcile_linked_runs b o).1.state)
        × (news : List LinkedToolflowRun) × (s ≡ record o.state { linked_runs = news })
        × Answered (length o.calls) o.ticks o.state.linked_runs news
        × ((reconcile_linked_runs b o).1.calls
            ≡ o.calls ++ map (λ r. get_run_status r.run_id) o.state.linked_runs)
  unfolding reconcile_linked_runs
  reconcile_linked_runs-Reconciled o s =
      go (reconcile_from b [] o.state.linked_runs o).0 (reconcile_from b [] o.state.linked_runs o).1
        (reconcile_from-Reconciled [] o.state.linked_runs o refl)
    where
      go :
          (r : Outcome (Unit {0})) (v : Outside)
          → (r ≡ returned tt → Reconciled [] o.state.linked_runs o v)
          → (resolve_with r (λ _. get_state) v).0 ≡ returned s
          → (s ≡ (resolve_with r (λ _. get_state) v).1.state)
            × (news : List LinkedToolflowRun) × (s ≡ record o.state { linked_runs = news })
            × Answered (length o.calls) o.ticks o.state.linked_runs news
            × ((resolve_with r (λ _. get_state) v).1.calls
                ≡ o.calls ++ map (λ r. get_run_status r.run_id) o.state.linked_runs)
      go (returned u) v p e = let (news, st, a, c) = p refl in (cc, news, cc, a, c)
      go rejection v p e = absurd (cc)
      go (unsupported_transition t) v p e = absurd (cc)
