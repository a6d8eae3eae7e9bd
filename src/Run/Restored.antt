-- ===== src/Run/Restored.antt =====
-- What recovery leaves of a manifest and of the ledger.
use tool_flow.Prelude.{
  ℕ, suc, Bool, true, false, ◌≡◌, refl, ◌∙◌, ap, List, [], ◌∷◌, Str, Option, none, some, lookup,
  put, lookup-put, lookup-put_self, key2_eq, str_eq, All, Table, arith, subst, length,
}
use tool_flow.Types.{
  RunState, StepState, StepManifest, RunManifest, CompiledStep, CompiledGraph, Result, ok,
  is_quarantined, missing_entry,
}
use tool_flow.Env.{Env}
use tool_flow.World.{World, run_recovered, After, After-bind, ◌>>=◌, ◌>>◌, pure, require}
use tool_flow.Mirror.{sync_taskflow_mirror}
use tool_flow.Run.Persist.{stamped, SameRun, sync-SameRun, event-bind}
use tool_flow.Ledger.{write_manifest, append_event, read_manifest}
use tool_flow.Run.Manifest.{Ctx, Steps, some_step}
use tool_flow.Run.Recovery.{
  RecoveryStepResult, is_settled, recover_entry, recover_step, recover_steps, derive_run_state,
  recover_run,
}
use tool_flow.Run.Recovered.{Recovers, recover_entry-Recovers}

-- The states that recovery leaves as they are; the others are those of an interrupted or cancelled
-- step.
abbrev pub stands : StepState → Bool
stands StepState.pending = true
stands StepState.awaiting_approval = true
stands StepState.quarantined = true
stands StepState.succeeded = true
stands StepState.failed = true
stands StepState.skipped = true
stands StepState.running = false
stands StepState.grant_issued = false
stands StepState.cancelled = false

is_settled_iff : (s : StepState) → is_settled s ≡ stands s
unfolding is_settled
is_settled_iff s = ground arith

-- Whether a step has an entry in such a state.
abbrev settled_at : Steps → Str → Bool
settled_at steps id = elim (lookup steps id) [ none ↦ false | some s ↦ stands s.state ]

-- What recovery has done to the entries of some steps of a manifest.
pub record IsRecovered (old m : RunManifest) (nodes : List CompiledStep) : Type 0 where
  pub settled : All (λ n. settled_at m.steps n.id ≡ true) nodes
  pub kept :
      (id : Str) (s : StepManifest)
      → lookup old.steps id ≡ some s
      → stands s.state ≡ true
      → lookup m.steps id ≡ some s
  pub stays : (id : Str) → settled_at old.steps id ≡ true → settled_at m.steps id ≡ true
  pub same_run : m.run_id ≡ old.run_id

to_stands : (s : StepManifest) → is_settled s.state ≡ true → stands s.state ≡ true
to_stands s e = cc (is_settled_iff s.state)

from_stands : (s : StepManifest) → stands s.state ≡ true → is_settled s.state ≡ true
from_stands s e = cc (is_settled_iff s.state)

put-IsRecovered :
    (old m : RunManifest) (n : CompiledStep) (s new : StepManifest)
    → lookup old.steps n.id ≡ some s
    → stands new.state ≡ true
    → (stands s.state ≡ true → new ≡ s)
    → record old { steps = put old.steps n.id new } ≡ m
    → IsRecovered old m (n ∷ [])
put-IsRecovered old m n s new f e k q =
    subst (λ (z : RunManifest). IsRecovered old z (n ∷ [])) q
      (record {
        settled = (ground (arith, lookup-put_self old.steps n.id new), tt);
        kept = λ id x h y. kept id x h y;
        stays = λ id h. stays id h;
        same_run = refl;
      })
  where
    kept :
        (id : Str) (x : StepManifest)
        → lookup old.steps id ≡ some x
        → stands x.state ≡ true
        → lookup (put old.steps n.id new) id ≡ some x
    kept id x h y = ground (arith, lookup-put old.steps n.id new id, str_eq.beq_iff n.id id, k)

    stays :
        (id : Str) → settled_at old.steps id ≡ true → settled_at (put old.steps n.id new) id ≡ true
    stays id h = ground (arith, lookup-put old.steps n.id new id, str_eq.beq_iff n.id id)

recover_step-IsRecovered :
    (env : Env) (old : RunManifest) (n : CompiledStep) (w : World)
    → After
        (λ r v. (p : RunManifest × RecoveryStepResult) → r ≡ ok p → IsRecovered old p.0 (n ∷ []))
        (recover_step env old n)
        w
unfolding recover_step
recover_step-IsRecovered env old n w =
    After-bind (λ r v. (s : StepManifest) → r ≡ ok s → lookup old.steps n.id ≡ some s) Q
      (require (missing_entry n.id) (lookup old.steps n.id)) _ w
      (λ s h. found s (lookup old.steps n.id) refl h)
      (λ s v f.
        After-bind (Recovers s) Q (recover_entry env old.run_id n.replay_class s) _ v
          (recover_entry-Recovers env old.run_id n.replay_class s v)
          (λ p u r q h.
            put-IsRecovered old q.0 n s p.0 (f s refl) (to_stands p.0 (r p refl).0)
              (λ e. (r p refl).1 (from_stands s e)) (cc (h)))
          (λ e u r q h. absurd (cc)))
      (λ e v f q h. absurd (cc))
  where
    Q : Result (RunManifest × RecoveryStepResult) → World → Type 0
    Q r v = (p : RunManifest × RecoveryStepResult) → r ≡ ok p → IsRecovered old p.0 (n ∷ [])

    found :
        (s : StepManifest) (o : Option StepManifest)
        → lookup old.steps n.id ≡ o
        → (require (missing_entry n.id) o w).0 ≡ ok s
        → lookup old.steps n.id ≡ some s
    found s none e h = absurd (cc)
    found s (some x) e h = cc

IsRecovered-trans :
    (old m new : RunManifest) (n : CompiledStep) (ns : List CompiledStep)
    → IsRecovered old m (n ∷ [])
    → IsRecovered m new ns
    → IsRecovered old new (n ∷ ns)
IsRecovered-trans old m new n ns a b = record {
  settled = (b.stays n.id a.settled.0, b.settled);
  kept = λ id s h e. b.kept id s (a.kept id s h e) e;
  stays = λ id h. b.stays id (a.stays id h);
  same_run = b.same_run ∙ a.same_run;
}

abbrev Restores :
    RunManifest
    → List CompiledStep
    → Result (RunManifest × List RecoveryStepResult)
    → World
    → Type 0
Restores old nodes r v =
    (p : RunManifest × List RecoveryStepResult) → r ≡ ok p → IsRecovered old p.0 nodes

recover_steps-Restores :
    (env : Env) (nodes : List CompiledStep) (old : RunManifest) (w : World)
    → After (Restores old nodes) (recover_steps env nodes old) w
unfolding recover_steps
recover_steps-Restores env [] old w = λ p h. unmoved p.0 (cc (h))
  where
    unmoved : (m : RunManifest) → old ≡ m → IsRecovered old m []
    unmoved m e =
        subst (λ (z : RunManifest). IsRecovered old z []) e
          (record { settled = tt; kept = λ id s l x. l; stays = λ id x. x; same_run = refl })
recover_steps-Restores env (n ∷ ns) old w =
    After-bind
      (λ r v. (p : RunManifest × RecoveryStepResult) → r ≡ ok p → IsRecovered old p.0 (n ∷ []))
      (Restores old (n ∷ ns)) (recover_step env old n) _ w (recover_step-IsRecovered env old n w)
      (λ a v f.
        After-bind (Restores a.0 ns) (Restores old (n ∷ ns)) (recover_steps env ns a.0) _ v
          (recover_steps-Restores env ns a.0 v)
          (λ b u g p h. go a.0 b.0 p.0 (f a refl) (g b refl) (cc (h))) (λ e u g p h. absurd (cc)))
      (λ e v f p h. absurd (cc))
  where
    go :
        (m m1 m2 : RunManifest)
        → IsRecovered old m (n ∷ [])
        → IsRecovered m m1 ns
        → m1 ≡ m2
        → IsRecovered old m2 (n ∷ ns)
    go m m1 m2 a b e =
        subst (λ (z : RunManifest). IsRecovered old z (n ∷ ns)) e
          (IsRecovered-trans old m m1 n ns a b)

-- A run as `recoverRun` leaves it: as the ledger holds it, with every step of its graph in a state
-- that recovery leaves, those that were in one before as they were, and quarantined if one of its steps is.
pub record IsRestored (old m : RunManifest) (nodes : List CompiledStep) (v : World) : Type 0 where
  pub steps : IsRecovered old m nodes
  pub stored : lookup v.ledger.manifests m.run_id ≡ some m
  pub quarantines : some_step is_quarantined m.steps ≡ true → m.state ≡ RunState.quarantined

IsRecovered-state :
    {old m : RunManifest} {nodes : List CompiledStep} (s : RunState) (now : ℕ)
    → IsRecovered old m nodes
    → IsRecovered old (stamped (record m { state = s }) now) nodes
IsRecovered-state s now r = record {
  settled = r.settled;
  kept = r.kept;
  stays = r.stays;
  same_run = r.same_run;
}

derive_run_state-quarantined :
    (m : RunManifest)
    → some_step is_quarantined m.steps ≡ true
    → derive_run_state m ≡ RunState.quarantined
unfolding derive_run_state
derive_run_state-quarantined m h = rw h refl

abbrev Q :
    RunManifest
    → List CompiledStep
    → Result (RunManifest × List RecoveryStepResult)
    → World
    → Type 0
Q old nodes r v =
    (p : RunManifest × List RecoveryStepResult) → r ≡ ok p → IsRestored old p.0 nodes v

restored-write :
    (ctx : Ctx) (old m : RunManifest) (nodes : List CompiledStep) (previous : RunState)
    (results : List RecoveryStepResult) (w : World)
    → IsRecovered old m nodes
    → After
        (Q old nodes)
        (write_manifest ctx.env (record m { state = derive_run_state m }) >>= λ m'.
          sync_taskflow_mirror ctx.env ctx.ambient m' >>= λ _.
          append_event ctx.env m'.run_id (run_recovered previous m'.state (length results))
          >> pure (m', results))
        w
unfolding write_manifest
restored-write ctx old m nodes previous results w r =
    let now = ctx.env.clock w.ticks in
    let m' = stamped (record m { state = derive_run_state m }) now in
    let v : World = record w {
      ledger = record w.ledger { manifests = put w.ledger.manifests m.run_id m' };
      ticks = suc w.ticks;
    } in
    After-bind (λ r u. SameRun v u) (Q old nodes) (sync_taskflow_mirror ctx.env ctx.ambient m') _ v
      (sync-SameRun ctx.env ctx.ambient m' v).1
      (λ a u s. event-bind ctx.env m.run_id _ (Q old nodes) (pure (m', results)) u λ x t p h.
        let same : m' ≡ p.0 = cc in
        subst (λ (z : RunManifest). IsRestored old z nodes x) same
          (record {
            steps = IsRecovered-state (derive_run_state m) now r;
            stored =
                ap (λ (k : Table Str RunManifest). lookup k m.run_id) (t.manifests ∙ s.manifests)
                ∙ lookup-put_self w.ledger.manifests m.run_id m';
            quarantines = derive_run_state-quarantined m;
          }))
      (λ e u s p h. absurd (cc))

-- If `recoverRun` returns, for a run and graph of the ledger, then the manifest that it returns is
-- the one that the ledger now holds. Every step of the graph is then in one of the states
-- `pending`, `awaiting_approval`, `quarantined`, `succeeded`, `failed` and `skipped`; the steps that
-- were in one of these before are as they were; and the run is quarantined if one of its steps is.
pub recover_run-Restores :
    (ctx : Ctx) (run_id : Str) (w : World) (old : RunManifest) (g : CompiledGraph)
    (p : RunManifest × List RecoveryStepResult)
    → lookup w.ledger.manifests run_id ≡ some old
    → lookup w.ledger.graphs old.run_id ≡ some g
    → (recover_run ctx run_id w).0 ≡ ok p
    → IsRestored old p.0 g.nodes (recover_run ctx run_id w).1
unfolding recover_run read_manifest
recover_run-Restores ctx run_id w old g p found_run found_graph =
    rw (found_run, found_graph)
      (After-bind (Restores old g.nodes) (Q old g.nodes) (recover_steps ctx.env g.nodes old) _ w
        (recover_steps-Restores ctx.env g.nodes old w)
        (λ a v r. restored-write ctx old a.0 g.nodes old.state a.1 v (r a refl))
        (λ e v r q h. absurd (cc)) p)
