-- ===== src/Mirror/Index.antt =====
-- The index of the mirror: which runs it lists after a manifest is mirrored, and in which order.
use tool_flow.Prelude.{
  ◌≡◌, refl, [], some, or_else, Option-cases, inl, inr, lookup, put, lookup-put_self, str_eq,
}
use tool_flow.Types.{RunManifest}
use tool_flow.Env.{Env}
use tool_flow.Config.{RuntimeConfig}
use tool_flow.World.{World, MirrorRun, TaskflowMirrorIndex, now_iso}
use tool_flow.Ledger.{append_event}
use tool_flow.Upsert.{upsert}
use tool_flow.Upsert.Laws.{IsUpserted, upsert-IsUpserted}
use tool_flow.Mirror.{
  map_run_state_to_taskflow_state, mirror_run, read_mirror_index, sync_taskflow_mirror,
}

-- What the entry of a manifest says.
abbrev pub described : RunManifest → MirrorRun
described m = record {
  run_id = m.run_id;
  workflow_name = m.workflow_name;
  run_state = m.state;
  mirrored_taskflow_state = map_run_state_to_taskflow_state m.state;
  updated_at = m.updated_at;
}

-- The index after a manifest is mirrored, whatever it was before.
pub record IsIndexed (m : RunManifest) (old index : TaskflowMirrorIndex) : Type 0 where
  pub updated : index.updated_at ≡ m.updated_at
  pub runs : IsUpserted MirrorRun.run_id MirrorRun.updated_at old.runs (described m) index.runs

upsert-IsIndexed :
    (m : RunManifest) (old : TaskflowMirrorIndex)
    → IsIndexed m old (record {
      updated_at = m.updated_at;
      runs = upsert MirrorRun.run_id MirrorRun.updated_at old.runs (mirror_run m);
    })
unfolding mirror_run
upsert-IsIndexed m old = record {
  updated = refl;
  runs = upsert-IsUpserted MirrorRun.run_id MirrorRun.updated_at old.runs (mirror_run m);
}

abbrev pub no_index : TaskflowMirrorIndex
no_index = record { updated_at = 0; runs = [] }

-- The index that `syncTaskflowMirror` writes has the time of the manifest, is
-- sorted by time, lists the manifest's run once, and lists of the other runs exactly the entries
-- that the index before it listed; an index that is not there counts as empty.
pub sync_taskflow_mirror-IsIndexed :
    (env : Env) (config : RuntimeConfig) (m : RunManifest) (w : World)
    → (index : TaskflowMirrorIndex) × (lookup
          (sync_taskflow_mirror env config m w).1.ledger.mirror_indexes
          config.taskflow_mirror_root
        ≡ some index)
      × IsIndexed m
          (or_else (lookup w.ledger.mirror_indexes config.taskflow_mirror_root) no_index)
          index
unfolding sync_taskflow_mirror read_mirror_index now_iso append_event lookup put
sync_taskflow_mirror-IsIndexed env config m w =
    elim (Option-cases (lookup w.ledger.mirror_indexes config.taskflow_mirror_root)) [
      | inl e ↦ rw e (written no_index)
      | inr (old, e) ↦ rw e (written old)
    ]
  where
    written :
        (old : TaskflowMirrorIndex)
        → (index : TaskflowMirrorIndex) × (lookup
              (put w.ledger.mirror_indexes config.taskflow_mirror_root (record {
                updated_at = m.updated_at;
                runs = upsert MirrorRun.run_id MirrorRun.updated_at old.runs (mirror_run m);
              }))
              config.taskflow_mirror_root
            ≡ some index)
          × IsIndexed m old index
    written old = (
      record {
        updated_at = m.updated_at;
        runs = upsert MirrorRun.run_id MirrorRun.updated_at old.runs (mirror_run m);
      },
      lookup-put_self w.ledger.mirror_indexes config.taskflow_mirror_root (record {
        updated_at = m.updated_at;
        runs = upsert MirrorRun.run_id MirrorRun.updated_at old.runs (mirror_run m);
      }),
      upsert-IsIndexed m old,
    )
