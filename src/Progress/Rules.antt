-- ===== src/Progress/Rules.antt =====
-- Invariants of the monitor, from one rule for each way in which its state changes.
use tool_flow.Prelude.{
  ℕ, ◌+◌, ◌-◌, ◌≤◌, max, Bool, true, false, not, List, [], ◌∷◌, ◌≡◌, refl, Str, Option, none, some,
  ltb, leb, arith, Option-cases, inl, inr, if◌then◌else◌, ◌&&◌,
}
use tool_flow.Types.{RunManifest}
use tool_flow.Env.{Env}
use tool_flow.Config.{RuntimeProgressConfig}
use tool_flow.Progress.{
  Snapshot, ProgressType, Reporter, elapsed_at, emit, emit_if_due, maybe_emit_long_running, start,
  stop, timer_fires, emit_once_started, on_step_started, on_step_completed, on_approval_wait,
  on_run_completed, Call, started, fired, stopped, step_starts, step_ends, approval_waits, run_ends,
  perform, report,
}

abbrev pub is_run_type : ProgressType → Bool
is_run_type ProgressType.run_started = true
is_run_type ProgressType.run_completed = true
is_run_type _ = false

abbrev pub is_step_type : ProgressType → Bool
is_step_type ProgressType.step_started = true
is_step_type ProgressType.step_completed = true
is_step_type _ = false

-- The state at the event of a long run, before the event is emitted.
abbrev pub with_start : Env → Reporter → Reporter
with_start env r = record r {
  long_running_started = true;
  last_long_running_at = env.clock r.ticks;
  ticks = r.ticks + 1;
}

-- What keeps `P`: a reading of the clock, the timer, and each kind of event where it is emitted.
pub record Keeps (env : Env) (progress : RuntimeProgressConfig) (total : ℕ) (P : Reporter → Type 0)
    : Type 0 where
  pub tick : (r : Reporter) (k : ℕ) → r.ticks ≤ k → P r → P (record r { ticks = k })
  pub timer : (r : Reporter) (t : Option ℕ) → P r → P (record r { timer = t })
  pub of_run :
      (type : ProgressType) (m : RunManifest) (text : Str) (id : Option Str) (r : Reporter)
      → is_run_type type ≡ true
      → P r
      → P (emit env progress total type m text id r)
  pub of_step :
      (type : ProgressType) (m : RunManifest) (text : Str) (id : Option Str) (r : Reporter)
      → is_step_type type ≡ true
      → r.long_running_started ≡ true
      → P r
      → P (emit env progress total type m text id r)
  pub of_long :
      (m : RunManifest) (text : Str) (id : Option Str) (r : Reporter)
      → (r.long_running_started ≡ true
          → max progress.interval_ms 1000 ≤ env.clock r.ticks - r.last_long_running_at)
      → P r
      → P (emit env progress total ProgressType.long_running m text id (with_start env r))
  pub of_wait :
      (m : RunManifest) (text later : Str) (id : Option Str) (r : Reporter)
      → P r
      → P (
          emit env progress total ProgressType.approval_wait m later id
            (emit env progress total ProgressType.long_running m text id (with_start env r)))

module _ {env : Env} {progress : RuntimeProgressConfig} {total : ℕ} {P : Reporter → Type 0}
    (keeps : Keeps env progress total P) where
  if-Keeps :
      (b : Bool) (r t : Reporter) → (b ≡ true → P r) → (b ≡ false → P t) → P (if b then r else t)
  if-Keeps true r t p q = p refl
  if-Keeps false r t p q = q refl

  emit_if_due-Keeps :
      (s : Snapshot) (elapsed : ℕ) (r : Reporter)
      → P r
      → P (emit_if_due env progress total s false elapsed r)
  unfolding emit_if_due
  emit_if_due-Keeps s elapsed r h =
      if-Keeps
        (r.long_running_started
          && ltb (env.clock r.ticks - r.last_long_running_at) (max progress.interval_ms 1000))
        _ _ (λ _. keeps.tick r (r.ticks + 1) (omega arith) h)
        (λ due. keeps.of_long s.manifest _ s.current_step_id r (λ e. ground arith) h)

  maybe-Keeps :
      (s : Snapshot) (r : Reporter) → P r → P (maybe_emit_long_running env progress total s false r)
  unfolding maybe_emit_long_running
  maybe-Keeps s r h =
      if-Keeps
        (ltb (elapsed_at env progress total s.manifest r.ticks) progress.long_run_threshold_ms) _ _
        (λ _. keeps.tick r (r.ticks + 1) (omega arith) h)
        (λ _. emit_if_due-Keeps s _ _ (keeps.tick r (r.ticks + 1) (omega arith) h))

  wait-Keeps :
      (id : Str) (m : RunManifest) (r : Reporter)
      → P r
      → P (on_approval_wait env progress total id m r)
  unfolding on_approval_wait maybe_emit_long_running emit_if_due
  wait-Keeps id m r h = keeps.of_wait m _ _ (some id) _ (keeps.tick r (r.ticks + 1) (omega arith) h)

  once_started-Keeps :
      (type : ProgressType) (m : RunManifest) (text id : Str) (r : Reporter)
      → is_step_type type ≡ true
      → P r
      → P (emit_once_started env progress total type m text id r)
  unfolding emit_once_started
  once_started-Keeps type m text id r step h =
      if-Keeps r.long_running_started _ _ (λ on. keeps.of_step type m text (some id) r step on h)
        (λ _. h)

  completed-Keeps :
      (m : RunManifest) (r : Reporter) → P r → P (on_run_completed env progress total m r)
  unfolding on_run_completed
  completed-Keeps m r h =
      if-Keeps r.long_running_started _ _
        (λ _. keeps.of_run ProgressType.run_completed m _ none r refl h)
        λ _.
          if-Keeps (leb progress.long_run_threshold_ms (elapsed_at env progress total m r.ticks)) _
            _
            (λ _.
              keeps.of_run ProgressType.run_completed m _ none _ refl
                (keeps.tick r (r.ticks + 1) (omega arith) h))
            (λ _. keeps.tick r (r.ticks + 1) (omega arith) h)

  timer-Keeps : (s : Snapshot) (r : Reporter) → P r → P (timer_fires env progress total s r)
  unfolding timer_fires
  timer-Keeps s r h = elim (Option-cases r.timer) [
    | inl e ↦ rw (e, timer_fires) h
    | inr (p, e) ↦ rw (e, timer_fires) (maybe-Keeps s r h)
  ]

  perform-Keeps : (c : Call) (r : Reporter) → P r → P (perform env progress total c r)
  unfolding perform start stop on_step_started on_step_completed
  perform-Keeps (started s) r h =
      keeps.timer _ _ (keeps.of_run ProgressType.run_started s.manifest _ none r refl h)
  perform-Keeps (fired s) r h = timer-Keeps s r h
  perform-Keeps stopped r h = keeps.timer r none h
  perform-Keeps (step_starts id m) r h =
      once_started-Keeps ProgressType.step_started m _ id _ refl (maybe-Keeps _ r h)
  perform-Keeps (step_ends id m) r h =
      once_started-Keeps ProgressType.step_completed m _ id _ refl (maybe-Keeps _ r h)
  perform-Keeps (approval_waits id m) r h = wait-Keeps id m r h
  perform-Keeps (run_ends m) r h = completed-Keeps m r h

  pub report-Keeps :
      (custom : Bool) (cs : List Call) (r : Reporter)
      → P r
      → P (report env progress total custom cs r)
  unfolding report
  report-Keeps custom [] r h = h
  report-Keeps custom (c ∷ cs) r h =
      report-Keeps custom cs _
        (if-Keeps (not progress.enabled && not custom) _ _ (λ _. h) (λ _. perform-Keeps c r h))
