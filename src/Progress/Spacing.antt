-- ===== src/Progress/Spacing.antt =====
-- How often the monitor says that a run is long.
use tool_flow.Prelude.{
  ℕ, suc, ◌+◌, ◌*◌, ◌-◌, ◌≤◌, max, Bool, true, false, List, ◌≡◌, refl, ap, tally, arith, Bool-cases,
  inl, inr,
}
use tool_flow.Env.{Env}
use tool_flow.Config.{RuntimeProgressConfig}
use tool_flow.Progress.Rules.{Keeps, report-Keeps}
use tool_flow.Progress.{
  ProgressType, RuntimeProgressEvent, Reporter, new_reporter, emit, Call, report,
}

abbrev pub is_long : RuntimeProgressEvent → Bool
is_long e = elim e.type [ ProgressType.long_running ↦ true | _ ↦ false ]

abbrev pub is_wait : RuntimeProgressEvent → Bool
is_wait e = elim e.type [ ProgressType.approval_wait ↦ true | _ ↦ false ]

suc_mul : (a b : ℕ) → suc a * b ≡ a * b + b
suc_mul a b = grind arith

module _ (env : Env) (progress : RuntimeProgressConfig) (total : ℕ)
    (mono : (m n : ℕ) → m ≤ n → env.clock m ≤ env.clock n) where
  abbrev spacing : ℕ
  spacing = max progress.interval_ms 1000

  record IsSpaced (r : Reporter) : Type 0 where
    fresh : r.long_running_started ≡ false → tally is_long r.events ≡ 0
    bounded :
        r.long_running_started ≡ true
        → tally is_long r.events * spacing + env.clock 0
          ≤ r.last_long_running_at + spacing + tally is_wait r.events * spacing
    recent : r.long_running_started ≡ true → r.last_long_running_at ≤ env.clock r.ticks

  IsSpaced-Keeps : Keeps env progress total IsSpaced
  unfolding emit
  IsSpaced-Keeps = record {
    tick = λ r k le h. record {
      fresh = h.fresh;
      bounded = h.bounded;
      recent = λ e. ground (arith, h.recent e, mono r.ticks k le);
    };
    timer = λ r t h. record { fresh = h.fresh; bounded = h.bounded; recent = h.recent };
    of_run = λ type m text id r run h. record {
      fresh = λ e. ground (arith, h.fresh e);
      bounded = λ e. ground (arith, h.bounded e);
      recent = λ e. ground (arith, h.recent e, mono r.ticks (r.ticks + 2));
    };
    of_step = λ type m text id r step on h. record {
      fresh = λ e. ground (arith, h.fresh e);
      bounded = λ e. ground (arith, h.bounded e);
      recent = λ e. ground (arith, h.recent e, mono r.ticks (r.ticks + 2));
    };
    of_long = λ m text id r due h. record {
      fresh = λ e. absurd (cc);
      bounded = λ e. elim (Bool-cases r.long_running_started) [
        | inl old ↦ omega (arith, suc_mul (tally is_long r.events) spacing, h.bounded old, due old)
        | inr new ↦ omega (
          arith,
          suc_mul (tally is_long r.events) spacing,
          ap (λ (t : ℕ). t * spacing) (h.fresh new),
          mono 0 r.ticks,
        )
      ];
      recent = λ e. mono r.ticks (r.ticks + 1 + 2) (omega arith);
    };
    of_wait = λ m text later id r h. record {
      fresh = λ e. absurd (cc);
      bounded = λ e. elim (Bool-cases r.long_running_started) [
        | inl old ↦ omega (
          arith,
          suc_mul (tally is_long r.events) spacing,
          suc_mul (tally is_wait r.events) spacing,
          h.bounded old,
          h.recent old,
        )
        | inr new ↦ omega (
          arith,
          suc_mul (tally is_long r.events) spacing,
          suc_mul (tally is_wait r.events) spacing,
          ap (λ (t : ℕ). t * spacing) (h.fresh new),
          mono 0 r.ticks,
        )
      ];
      recent = λ e. mono r.ticks (r.ticks + 1 + 2 + 2) (omega arith);
    };
  }

  -- If the clock never goes back, then whatever calls a new monitor gets, there is at most one
  -- `long_running` event, and one more for each `approval_wait` event and for each interval (of a
  -- second at least) between the env.clock 0 reading of the clock and the last.
  pub report_bound :
      (ticks : ℕ) (custom : Bool) (cs : List Call)
      → tally is_long (report env progress total custom cs (new_reporter ticks)).events * spacing
        ≤ env.clock (report env progress total custom cs (new_reporter ticks)).ticks
          - env.clock 0
          + spacing
          + tally is_wait (report env progress total custom cs (new_reporter ticks)).events
            * spacing
  report_bound ticks custom cs = elim (Bool-cases final.long_running_started) [
    | inl on ↦ omega (arith, spaced.bounded on, spaced.recent on)
    | inr off ↦ omega (arith, ap (λ (t : ℕ). t * spacing) (spaced.fresh off))
  ]
    where
      final : Reporter
      final = report env progress total custom cs (new_reporter ticks)

      spaced : IsSpaced final
      spaced =
          report-Keeps IsSpaced-Keeps custom cs (new_reporter ticks)
            (record { fresh = λ e. refl; bounded = λ e. absurd (cc); recent = λ e. absurd (cc) })
