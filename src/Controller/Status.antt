-- ===== src/Controller/Status.antt =====
-- What `reconcileControllerFlow` makes of a flow and the mirrors of its linked runs.
use tool_flow.Prelude.{
  Bool, false, is_some, all, ◌≡◌, refl, ◌∙◌, ap, Str, List, [], ◌∷◌, map, All, Option, none, some,
  lookup, lookup-put_self, str_eq, key2_eq, or_else, arith, ◌⊎◌, inl, inr, Option-cases,
}
use tool_flow.Types.{ok, err, missing_file}
use tool_flow.Env.{Env}
use tool_flow.Config.{RuntimeConfig}
use tool_flow.World.{
  World, Ledger, MirroredTaskflowState, TaskflowMirrorRecord, ControllerFlowStatus,
  ControllerLinkedRun, ControllerFlowRecord, now_iso,
}
use tool_flow.Mirror.{read_taskflow_mirror}
use tool_flow.Controller.Index.{save_flow-saved}
use tool_flow.Controller.{
  read_index, upsert_index, save_flow, read_controller_flow, follow_mirror, refresh_linked,
  follow_runs, reconcile_controller_flow,
}

-- The status that the mirrored state of a linked run asks for; a running one asks for none.
abbrev pub status_from : MirroredTaskflowState → Option ControllerFlowStatus
status_from MirroredTaskflowState.waiting = some ControllerFlowStatus.waiting
status_from MirroredTaskflowState.blocked = some ControllerFlowStatus.blocked
status_from MirroredTaskflowState.done = some ControllerFlowStatus.running
status_from MirroredTaskflowState.cancelled = some ControllerFlowStatus.cancelled
status_from MirroredTaskflowState.running = none

abbrev later :
    Option ControllerFlowStatus → Option ControllerFlowStatus → Option ControllerFlowStatus
later first (some s) = some s
later first none = first

-- What the last linked run asks for that asks for anything.
abbrev pub latest_status : List ControllerLinkedRun → Option ControllerFlowStatus
latest_status [] = none
latest_status (l ∷ ls) = later (status_from l.mirrored_taskflow_state) (latest_status ls)

module _ (mirror_of : Str → TaskflowMirrorRecord) where
  abbrev pub refreshed : ControllerLinkedRun → ControllerLinkedRun
  refreshed l = record l {
    run_state = (mirror_of l.run_id).run_state;
    mirrored_taskflow_state = (mirror_of l.run_id).mirrored_taskflow_state;
    updated_at = (mirror_of l.run_id).updated_at;
  }

  -- What the loop makes of the flow.
  abbrev followed : List ControllerLinkedRun → ControllerFlowRecord → ControllerFlowRecord
  followed [] f = f
  followed (l ∷ ls) f = followed ls (follow_mirror l.run_id (mirror_of l.run_id) f)

  -- The files of the mirrors of some linked runs.
  abbrev pub Mirrored : RuntimeConfig → World → List ControllerLinkedRun → Type 0
  Mirrored config w ls =
      All
        (λ l.
          lookup w.ledger.mirrors (config.taskflow_mirror_root, l.run_id)
          ≡ some (mirror_of l.run_id))
        ls

  follow_runs-followed :
      (config : RuntimeConfig) (w : World) (ls : List ControllerLinkedRun)
      (f : ControllerFlowRecord)
      → Mirrored config w ls
      → follow_runs config ls f w ≡ (ok (followed ls f, map refreshed ls), w)
  unfolding follow_runs read_taskflow_mirror refresh_linked
  follow_runs-followed config w [] f h = refl
  follow_runs-followed config w (l ∷ ls) f h = rw h.0 (
      rw (follow_runs-followed config w ls (follow_mirror l.run_id (mirror_of l.run_id) f) h.1)
        refl)

  followed-status :
      (ls : List ControllerLinkedRun) (f : ControllerFlowRecord)
      → (followed ls f).status ≡ or_else (latest_status (map refreshed ls)) f.status
  unfolding follow_mirror
  followed-status [] f = refl
  followed-status (l ∷ ls) f =
      ground (arith, followed-status ls (follow_mirror l.run_id (mirror_of l.run_id) f))

  followed-kept :
      (ls : List ControllerLinkedRun) (f : ControllerFlowRecord)
      → ((followed ls f).flow_id ≡ f.flow_id)
        × ((followed ls f).goal ≡ f.goal)
        × ((followed ls f).artifacts ≡ f.artifacts)
        × ((followed ls f).created_at ≡ f.created_at)
        × ((followed ls f).last_material_progress_at ≡ f.last_material_progress_at)
  unfolding follow_mirror
  followed-kept [] f = (refl, refl, refl, refl, refl)
  followed-kept (l ∷ ls) f =
      ground (arith, followed-kept ls (follow_mirror l.run_id (mirror_of l.run_id) f))

-- The flow that a reconciliation stores, for the old one and the mirrors of its linked runs.
pub record IsReconciled (mirror_of : Str → TaskflowMirrorRecord) (old new : ControllerFlowRecord)
    : Type 0 where
  pub linked : new.linked_runs ≡ map (refreshed mirror_of) old.linked_runs
  pub status : new.status ≡ or_else (latest_status new.linked_runs) old.status
  pub id : new.flow_id ≡ old.flow_id
  pub goal : new.goal ≡ old.goal
  pub artifacts : new.artifacts ≡ old.artifacts
  pub created : new.created_at ≡ old.created_at
  pub progress : new.last_material_progress_at ≡ old.last_material_progress_at

save_flow-ok :
    (env : Env) (config : RuntimeConfig) (f : ControllerFlowRecord) (w : World)
    → (save_flow env config f w).0 ≡ ok f
unfolding save_flow upsert_index read_index now_iso
save_flow-ok env config f w = ground arith

save_flow-stored :
    (env : Env) (config : RuntimeConfig) (f : ControllerFlowRecord) (w : World)
    → lookup (save_flow env config f w).1.ledger.flows (config.taskflow_mirror_root, f.flow_id)
      ≡ some f
save_flow-stored env config f w =
    ap (λ (l : Ledger). lookup l.flows (config.taskflow_mirror_root, f.flow_id))
      (save_flow-saved env config f w)
    ∙ lookup-put_self w.ledger.flows (config.taskflow_mirror_root, f.flow_id) f

-- If a flow is stored and each of its linked runs has a mirror, `reconcileControllerFlow` does not
-- fail. The flow that it returns is the stored one from then on, with the linked runs brought to
-- the states of their mirrors, and its status is that which the last linked run asks for that is
-- not `running`: `waiting`, `blocked` and `cancelled` ask for themselves, `done` for `running`; if
-- there is none, the status stays. The id, the goal, the artifacts, the time of creation and the
-- time of the last progress stay.
pub reconcile_controller_flow-IsReconciled :
    (env : Env) (config : RuntimeConfig) (id : Str) (w : World) (f : ControllerFlowRecord)
    (mirror_of : Str → TaskflowMirrorRecord)
    → lookup w.ledger.flows (config.taskflow_mirror_root, id) ≡ some f
    → Mirrored mirror_of config w f.linked_runs
    → (g : ControllerFlowRecord) × ((reconcile_controller_flow env config id w).0 ≡ ok g)
      × (lookup
            (reconcile_controller_flow env config id w).1.ledger.flows
            (config.taskflow_mirror_root, g.flow_id)
          ≡ some g)
      × IsReconciled mirror_of f g
unfolding reconcile_controller_flow read_controller_flow now_iso
reconcile_controller_flow-IsReconciled env config id w f mirror_of found mirrored = rw found (
    rw (follow_runs-followed mirror_of config w f.linked_runs f mirrored) (
      new,
      save_flow-ok env config new _,
      save_flow-stored env config new _,
      record {
        linked = refl;
        status = followed-status mirror_of f.linked_runs f;
        id = (followed-kept mirror_of f.linked_runs f).0;
        goal = (followed-kept mirror_of f.linked_runs f).1;
        artifacts = (followed-kept mirror_of f.linked_runs f).2;
        created = (followed-kept mirror_of f.linked_runs f).3;
        progress = (followed-kept mirror_of f.linked_runs f).4;
      },
    ))
  where
    new : ControllerFlowRecord
    new = record (followed mirror_of f.linked_runs f) {
      linked_runs = map (refreshed mirror_of) f.linked_runs;
      updated_at = env.clock w.ticks;
    }

-- All of some linked runs have a mirror.
abbrev pub all_mirrored : RuntimeConfig → World → List ControllerLinkedRun → Bool
all_mirrored config w ls =
    all (λ l. is_some (lookup w.ledger.mirrors (config.taskflow_mirror_root, l.run_id))) ls

follow_runs-missing :
    (config : RuntimeConfig) (w : World) (ls : List ControllerLinkedRun) (f : ControllerFlowRecord)
    → all_mirrored config w ls ≡ false
    → follow_runs config ls f w ≡ (err missing_file, w)
unfolding follow_runs read_taskflow_mirror
follow_runs-missing config w [] f h = absurd (cc)
follow_runs-missing config w (l ∷ ls) f h =
    elim (Option-cases (lookup w.ledger.mirrors (config.taskflow_mirror_root, l.run_id))) [
      | inl e ↦ rw e refl
      | inr (m, e) ↦
          rw e (rw (follow_runs-missing config w ls (follow_mirror l.run_id m f) (rw e at h)) refl)
    ]

-- If a flow is not stored, or one of its linked runs has no mirror, `reconcileControllerFlow` fails
-- for the missing file and has written nothing.
pub reconcile_controller_flow-missing :
    (env : Env) (config : RuntimeConfig) (id : Str) (w : World)
    → (lookup w.ledger.flows (config.taskflow_mirror_root, id) ≡ none)
      ⊎ ((f : ControllerFlowRecord) × (lookup w.ledger.flows (config.taskflow_mirror_root, id)
            ≡ some f)
          × (all_mirrored config w f.linked_runs ≡ false))
    → reconcile_controller_flow env config id w ≡ (err missing_file, w)
unfolding reconcile_controller_flow read_controller_flow
reconcile_controller_flow-missing env config id w (inl e) = rw e refl
reconcile_controller_flow-missing env config id w (inr (f, e, h)) =
    rw e (rw (follow_runs-missing config w f.linked_runs f h) refl)
