-- ===== src/Progress.antt =====
-- packages/runtime/src/control-plane/progress-reporter.ts: the monitor that reports on a long run.
pub mod Rules
pub mod Spacing
pub mod Announced
use tool_flow.Prelude.{
  ℕ, suc, ◌+◌, ◌-◌, ◌/◌, max, min, Bool, true, false, not, ◌&&◌, ◌||◌, List, [], ◌∷◌, ◌++◌, Str,
  codes, Option, none, some, ltb, leb, tally, if◌then◌else◌,
}
use tool_flow.Types.{RunState, RunManifest, is_succeeded}
use tool_flow.Env.{Env}
use tool_flow.Config.{RuntimeProgressConfig}

pub record Snapshot : Type 0 where
  pub manifest : RunManifest
  pub current_step_id : Option Str

pub data ProgressType : Type 0 where
  run_started long_running step_started step_completed approval_wait run_completed : ProgressType

pub record RuntimeProgressEvent : Type 0 where
  pub type : ProgressType
  pub run_id : Str
  pub workflow_name : Str
  pub state : RunState
  pub elapsed_ms : ℕ
  pub completed_steps : ℕ
  pub total_steps : ℕ
  pub current_step_id : Option Str
  pub message : Str
  pub emitted_at : ℕ

-- The variables of the monitor, the period of its timer while it runs, how often the clock was
-- read, and the events that the reporter got, the last one first.
pub record Reporter : Type 0 where
  pub long_running_started : Bool
  pub last_long_running_at : ℕ
  pub timer : Option ℕ
  pub ticks : ℕ
  pub events : List RuntimeProgressEvent

abbrev pub new_reporter : ℕ → Reporter
new_reporter ticks = record {
  long_running_started = false;
  last_long_running_at = 0;
  timer = none;
  ticks = ticks;
  events = [];
}

unfoldable pub completed_steps : RunManifest → ℕ
completed_steps m = tally (λ e. is_succeeded e.1.state) m.steps

-- `Math.round(ms / 60000)`
unfoldable pub rounded_minutes : ℕ → ℕ
rounded_minutes ms = (ms + 30000) / 60000

-- The text of a run state.
unfoldable pub run_state_name : RunState → Str
run_state_name RunState.created = codes "created"
run_state_name RunState.compiled = codes "compiled"
run_state_name RunState.ready = codes "ready"
run_state_name RunState.running = codes "running"
run_state_name RunState.awaiting_approval = codes "awaiting_approval"
run_state_name RunState.quarantined = codes "quarantined"
run_state_name RunState.cancelled = codes "cancelled"
run_state_name RunState.succeeded = codes "succeeded"
run_state_name RunState.failed = codes "failed"
run_state_name RunState.rejected = codes "rejected"

-- A call of the monitor, or a tick of its timer, with what `getSnapshot()` returns.
pub data Call : Type 0 where
  started fired : Snapshot → Call
  stopped : Call
  step_starts step_ends approval_waits : Str → RunManifest → Call
  run_ends : RunManifest → Call

module _ (env : Env) (progress : RuntimeProgressConfig) (total_steps : ℕ) where
  -- `elapsedMs(manifest)` at a reading of the clock
  unfoldable pub elapsed_at : RunManifest → ℕ → ℕ
  elapsed_at m tick = env.clock tick - m.created_at

  unfoldable pub emit : ProgressType → RunManifest → Str → Option Str → Reporter → Reporter
  unfolding elapsed_at completed_steps
  emit type m message current_step_id r =
      let event : RuntimeProgressEvent = record {
        type = type;
        run_id = m.run_id;
        workflow_name = m.workflow_name;
        state = m.state;
        elapsed_ms = elapsed_at m r.ticks;
        completed_steps = completed_steps m;
        total_steps = total_steps;
        current_step_id = current_step_id;
        message = message;
        emitted_at = env.clock (r.ticks + 1);
      } in
      record r { ticks = r.ticks + 2; events = event ∷ r.events }

  -- `${completedSteps(manifest)}/${totalSteps}`
  unfoldable pub progress_text : RunManifest → Str
  unfolding completed_steps
  progress_text m = env.decimal (completed_steps m) ++ codes "/" ++ env.decimal total_steps

  -- An absent or empty id shows nothing.
  unfoldable pub step_text : Option Str → Str
  step_text (some (c ∷ s)) = codes " Current step: " ++ (c ∷ s) ++ codes "."
  step_text _ = []

  -- `trim()` finds nothing to remove: the text starts with a letter and ends with a full stop.
  unfoldable pub long_running_message : RunManifest → ℕ → Option Str → Str
  unfolding rounded_minutes progress_text step_text
  long_running_message m elapsed current_step_id =
      codes "ToolFlow run "
      ++ m.run_id
      ++ codes " is still running after "
      ++ env.decimal (rounded_minutes elapsed)
      ++ codes " minute(s). "
      ++ progress_text m
      ++ codes " step(s) completed."
      ++ step_text current_step_id

  -- From `const now = Date.now()` on.
  unfoldable pub emit_if_due : Snapshot → Bool → ℕ → Reporter → Reporter
  unfolding emit long_running_message
  emit_if_due s force elapsed r =
      let now = env.clock r.ticks in
      if not force
        && r.long_running_started
        && ltb (now - r.last_long_running_at) (max progress.interval_ms 1000)
      then record r { ticks = r.ticks + 1 }
      else emit ProgressType.long_running s.manifest
          (long_running_message s.manifest elapsed s.current_step_id) s.current_step_id
          (record r {
            long_running_started = true;
            last_long_running_at = now;
            ticks = r.ticks + 1;
          })

  unfoldable pub maybe_emit_long_running : Snapshot → Bool → Reporter → Reporter
  unfolding elapsed_at emit_if_due
  maybe_emit_long_running s force r =
      let elapsed = elapsed_at s.manifest r.ticks in
      if not force && ltb elapsed progress.long_run_threshold_ms
      then record r { ticks = r.ticks + 1 }
      else emit_if_due s force elapsed (record r { ticks = r.ticks + 1 })

  -- The period of the timer: `Math.min(Math.max(intervalMs, 30_000), 60_000)`.
  unfoldable pub start : Snapshot → Reporter → Reporter
  unfolding emit
  start s r =
      record (emit ProgressType.run_started s.manifest
        (codes "ToolFlow run "
          ++ s.manifest.run_id
          ++ codes " started for workflow \""
          ++ s.manifest.workflow_name
          ++ codes "\".")
        none r) { timer = some (min (max progress.interval_ms 30000) 60000) }

  unfoldable pub stop : Reporter → Reporter
  stop r = record r { timer = none }

  unfoldable pub timer_fires : Snapshot → Reporter → Reporter
  timer_fires s r = elim r.timer [ none ↦ r | some period ↦ maybe_emit_long_running s false r ]

  -- `if (!longRunningStarted) return; emit(...)`
  unfoldable pub emit_once_started : ProgressType → RunManifest → Str → Str → Reporter → Reporter
  unfolding emit
  emit_once_started type m message step_id r =
      if r.long_running_started then emit type m message (some step_id) r else r

  unfoldable pub on_step_started : Str → RunManifest → Reporter → Reporter
  on_step_started step_id m r =
      emit_once_started ProgressType.step_started m
        (codes "ToolFlow run " ++ m.run_id ++ codes " started step " ++ step_id ++ codes ".")
        step_id
        (maybe_emit_long_running (record { manifest = m; current_step_id = some step_id }) false r)

  unfoldable pub on_step_completed : Str → RunManifest → Reporter → Reporter
  unfolding progress_text
  on_step_completed step_id m r =
      emit_once_started ProgressType.step_completed m
        (codes "ToolFlow run "
          ++ m.run_id
          ++ codes " completed step "
          ++ step_id
          ++ codes ". "
          ++ progress_text m
          ++ codes " step(s) finished.")
        step_id
        (maybe_emit_long_running (record { manifest = m; current_step_id = some step_id }) false r)

  unfoldable pub on_approval_wait : Str → RunManifest → Reporter → Reporter
  on_approval_wait step_id m r =
      emit ProgressType.approval_wait m
        (codes "ToolFlow run "
          ++ m.run_id
          ++ codes " is waiting for approval on step "
          ++ step_id
          ++ codes ".")
        (some step_id)
        (maybe_emit_long_running (record { manifest = m; current_step_id = some step_id }) true r)

  -- The clock is read for `elapsedMs` only if no `long_running` came before.
  unfoldable pub on_run_completed : RunManifest → Reporter → Reporter
  unfolding elapsed_at emit progress_text run_state_name
  on_run_completed m r =
      if r.long_running_started
      then completed r
      else if leb progress.long_run_threshold_ms (elapsed_at m r.ticks)
      then completed (record r { ticks = r.ticks + 1 })
      else record r { ticks = r.ticks + 1 }
    where
      completed : Reporter → Reporter
      completed =
          emit ProgressType.run_completed m
            (codes "ToolFlow run "
              ++ m.run_id
              ++ codes " finished with state "
              ++ run_state_name m.state
              ++ codes ". "
              ++ progress_text m
              ++ codes " step(s) completed.")
            none

  unfoldable pub perform : Call → Reporter → Reporter
  perform (started s) r = start s r
  perform (fired s) r = timer_fires s r
  perform stopped r = stop r
  perform (step_starts id m) r = on_step_started id m r
  perform (step_ends id m) r = on_step_completed id m r
  perform (approval_waits id m) r = on_approval_wait id m r
  perform (run_ends m) r = on_run_completed m r

  -- The calls of the monitor that `createRunProgressMonitor` makes: if updates are not enabled and
  -- the caller gave no reporter, it is the silent one.
  unfoldable pub report : (custom_reporter : Bool) → List Call → Reporter → Reporter
  unfolding perform
  report custom_reporter [] r = r
  report custom_reporter (c ∷ cs) r =
      let r' = if not progress.enabled && not custom_reporter then r else perform c r in
      report custom_reporter cs r'
