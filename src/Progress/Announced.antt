-- ===== src/Progress/Announced.antt =====
-- The order of the monitor's events.
use tool_flow.Prelude.{ℕ, Bool, true, false, List, [], ◌∷◌, ◌≡◌, refl, any, arith}
use tool_flow.Env.{Env}
use tool_flow.Config.{RuntimeProgressConfig}
use tool_flow.Progress.{
  ProgressType, RuntimeProgressEvent, Reporter, new_reporter, emit, Call, report,
}
use tool_flow.Progress.Rules.{Keeps, report-Keeps}
use tool_flow.Progress.Spacing.{is_long}

-- The events about a step.
abbrev pub is_about_step : RuntimeProgressEvent → Bool
is_about_step e = elim e.type [
  | ProgressType.step_started ↦ true
  | ProgressType.step_completed ↦ true
  | ProgressType.approval_wait ↦ true
  | _ ↦ false
]

-- Of a list with the last event first: an event about a step has a `long_running` before it.
abbrev pub Announced : List RuntimeProgressEvent → Type 0
Announced [] = Unit
Announced (e ∷ es) = (is_about_step e ≡ true → any is_long es ≡ true) × Announced es

record IsAnnounced (r : Reporter) : Type 0 where
  ordered : Announced r.events
  known : r.long_running_started ≡ true → any is_long r.events ≡ true

module _ (env : Env) (progress : RuntimeProgressConfig) (total : ℕ) where
  IsAnnounced-Keeps : Keeps env progress total IsAnnounced
  unfolding emit
  IsAnnounced-Keeps = record {
    tick = λ r k le h. record { ordered = h.ordered; known = h.known };
    timer = λ r t h. record { ordered = h.ordered; known = h.known };
    of_run = λ type m text id r run h. record {
      ordered = (λ e. ground arith, h.ordered);
      known = λ e. ground (arith, h.known e);
    };
    of_step = λ type m text id r step on h. record {
      ordered = (λ e. h.known on, h.ordered);
      known = λ e. ground (arith, h.known e);
    };
    of_long =
        λ m text id r due h. record { ordered = (λ e. absurd (cc), h.ordered); known = λ e. refl };
    of_wait = λ m text later id r h. record {
      ordered = (λ e. refl, (λ e. absurd (cc), h.ordered));
      known = λ e. refl;
    };
  }

  -- Whatever calls a new monitor gets, each event that a step starts, ends or waits for approval
  -- comes after an event that the run is a long one.
  pub report-Announced :
      (ticks : ℕ) (custom : Bool) (cs : List Call)
      → Announced (report env progress total custom cs (new_reporter ticks)).events
  report-Announced ticks custom cs =
      (report-Keeps IsAnnounced-Keeps custom cs (new_reporter ticks)
        (record { ordered = tt; known = λ e. absurd (cc) })).ordered
