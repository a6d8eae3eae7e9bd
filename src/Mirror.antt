-- ===== src/Mirror.antt =====
-- packages/runtime/src/control-plane/taskflow-mirror.ts: the record of a run that another system
-- reads, and the index of those records.
pub mod Index
use tool_flow.Prelude.{
  ℕ, Bool, not, tally, last, Key2, List, [], ◌∷◌, ◌++◌, map, Str, Option, none, some, Table, lookup,
  put, ◌==◌, str_eq, key2_eq, if◌then◌else◌, keep, leb,
}
use tool_flow.Types.{
  RunState, StepState, StepManifest, RunManifest, is_awaiting, is_running, is_failed, missing_file,
}
use tool_flow.Env.{Env}
use tool_flow.Config.{RuntimeConfig}
use tool_flow.World.{
  MirroredTaskflowState, running, waiting, blocked, done, cancelled, WaitingOn, BlockedSummary,
  step_failed, run_quarantined, TaskflowMirrorRecord, MirrorRun, TaskflowMirrorIndex, mirror_synced,
  M, ◌>>=◌, ◌>>◌, pure, require, read_ledger, change, now_iso,
}
use tool_flow.Upsert.{upsert}
use tool_flow.Ledger.{open_store, read_manifest, append_event}

-- The `default` case is for the states `created` and `compiled`.
unfoldable pub map_run_state_to_taskflow_state : RunState → MirroredTaskflowState
map_run_state_to_taskflow_state RunState.awaiting_approval = waiting
map_run_state_to_taskflow_state RunState.running = running
map_run_state_to_taskflow_state RunState.ready = running
map_run_state_to_taskflow_state RunState.failed = blocked
map_run_state_to_taskflow_state RunState.rejected = blocked
map_run_state_to_taskflow_state RunState.quarantined = blocked
map_run_state_to_taskflow_state RunState.cancelled = cancelled
map_run_state_to_taskflow_state RunState.succeeded = done
map_run_state_to_taskflow_state _ = blocked

-- The id of the first step in a state, `stepEntries.find(...)?.[0]`.
unfoldable pub find_step : (StepState → Bool) → Table Str StepManifest → Option Str
find_step p [] = none
find_step p ((id, s) ∷ t) = let rest = find_step p t in if p s.state then some id else rest

abbrev first_some : Option Str → Option Str → Option Str
first_some (some a) b = some a
first_some none b = b

unfoldable pub blocked_summary_of : Option Str → RunManifest → Option BlockedSummary
blocked_summary_of (some id) m = some (step_failed id)
blocked_summary_of none m = elim m.state [
  | RunState.quarantined ↦ some (run_quarantined m.run_id)
  | _ ↦ none
]

unfoldable pub done_summary_of : RunManifest → Option Str
done_summary_of m = elim m.state [ RunState.succeeded ↦ some m.run_id | _ ↦ none ]

unfoldable pub waiting_on_of : Option Str → Option WaitingOn
waiting_on_of (some id) = some (record { step_id = id })
waiting_on_of none = none

unfoldable pub build_taskflow_mirror_record : RunManifest → TaskflowMirrorRecord
unfolding find_step map_run_state_to_taskflow_state blocked_summary_of done_summary_of waiting_on_of
build_taskflow_mirror_record m =
    let awaiting_approval = find_step is_awaiting m.steps in
    let running = find_step is_running m.steps in
    let failed = find_step is_failed m.steps in
    record {
      run_id = m.run_id;
      workflow_name = m.workflow_name;
      run_state = m.state;
      mirrored_taskflow_state = map_run_state_to_taskflow_state m.state;
      current_step = first_some awaiting_approval (first_some running failed);
      waiting_on = waiting_on_of awaiting_approval;
      blocked_summary = blocked_summary_of failed m;
      done_summary = done_summary_of m;
      updated_at = m.updated_at;
      step_states = map (λ e. (e.0, e.1.state)) m.steps;
    }

unfoldable pub mirror_run : RunManifest → MirrorRun
unfolding map_run_state_to_taskflow_state
mirror_run m = record {
  run_id = m.run_id;
  workflow_name = m.workflow_name;
  run_state = m.state;
  mirrored_taskflow_state = map_run_state_to_taskflow_state m.state;
  updated_at = m.updated_at;
}

-- An index that cannot be read is taken as empty.
unfoldable pub read_mirror_index : Env → Str → M TaskflowMirrorIndex
unfolding now_iso
read_mirror_index env root = do
  l ← read_ledger
  elim (lookup l.mirror_indexes root) [
    | some index ↦ pure index
    | none ↦ do now ← now_iso env; pure (record { updated_at = now; runs = [] })
  ]

unfoldable pub sync_taskflow_mirror : Env → RuntimeConfig → RunManifest → M TaskflowMirrorRecord
unfolding build_taskflow_mirror_record upsert mirror_run read_mirror_index append_event
sync_taskflow_mirror env config m = do
  let root = config.taskflow_mirror_root
  let r = build_taskflow_mirror_record m
  change (λ l. record l { mirrors = put l.mirrors (root, m.run_id) r })
  index ← read_mirror_index env root
  let runs = upsert MirrorRun.run_id MirrorRun.updated_at index.runs (mirror_run m)
  change λ l. record l {
    mirror_indexes = put l.mirror_indexes root (record { updated_at = m.updated_at; runs = runs });
  }
  append_event env m.run_id (mirror_synced r.mirrored_taskflow_state)
  pure r

unfoldable pub read_taskflow_mirror : RuntimeConfig → Str → M TaskflowMirrorRecord
read_taskflow_mirror config run_id = do
  l ← read_ledger
  require missing_file (lookup l.mirrors (config.taskflow_mirror_root, run_id))

unfoldable pub sync_taskflow_mirror_from_ledger : Env → RuntimeConfig → Str → M TaskflowMirrorRecord
sync_taskflow_mirror_from_ledger env config run_id = do
  open_store env config.ledger_root
  m ← read_manifest run_id
  sync_taskflow_mirror env config m

-- The number of record files of a directory, and the entries of one root.
unfoldable pub files_under : {V : Type 0} → Str → Table Key2 V → ℕ
files_under root t = tally (λ e. e.0.0 == root) t

pub record MirrorStatus : Type 0 where
  pub root : Str
  pub run_count : ℕ
  pub last_updated_at : ℕ
  pub latest_run : Option MirrorRun

unfoldable pub taskflow_mirror_status : Env → RuntimeConfig → M MirrorStatus
unfolding files_under read_mirror_index
taskflow_mirror_status env config = do
  let root = config.taskflow_mirror_root
  index ← read_mirror_index env root
  l ← read_ledger
  pure (record {
    root = root;
    run_count = files_under root l.mirrors;
    last_updated_at = index.updated_at;
    latest_run = last index.runs;
  })
