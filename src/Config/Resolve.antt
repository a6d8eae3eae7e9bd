-- ===== src/Config/Resolve.antt =====
-- packages/runtime/src/config/resolve.ts: a configuration from overrides, the variables of the
-- process and the defaults.
use tool_flow.Prelude.{
  ℕ, Bool, true, false, ◌||◌, List, [], ◌∷◌, map, keep, Str, codes, Option, none, some, or_else,
  or_option, ◌==◌, str_eq, nat_beq, leb, ◌&&◌, if◌then◌else◌, ◌≡◌, refl,
}
use tool_flow.Env.{Env}
use tool_flow.Config.{
  ProgressSink, stderr, command, RuntimeProgressConfig, RuntimeConfig, default_config,
}

-- `Partial<RuntimeProgressConfig>`
pub record ProgressOverrides : Type 0 where
  pub enabled : Option Bool
  pub long_run_threshold_ms : Option ℕ
  pub interval_ms : Option ℕ
  pub sink : Option ProgressSink
  pub command : Option Str

-- `Partial<RuntimeConfig>`
pub record Overrides : Type 0 where
  pub ledger_root : Option Str
  pub taskflow_mirror_root : Option Str
  pub grant_ttl_seconds : Option ℕ
  pub enable_elevated : Option Bool
  pub elevated_allowed_commands : Option (List Str)
  pub progress_updates : Option ProgressOverrides

-- `overrides?.field`
abbrev pub field_of : {A B : Type 0} → (A → Option B) → Option A → Option B
field_of f none = none
field_of f (some a) = f a

-- `process.env`
abbrev pub Variables : Type 0
Variables = Str → Option Str

-- The code units that `trim` removes.
unfoldable pub is_space : ℕ → Bool
is_space c =
    (leb 9 c && leb c 13)
    || nat_beq c 32
    || nat_beq c 160
    || nat_beq c 5760
    || (leb 8192 c && leb c 8202)
    || nat_beq c 8232
    || nat_beq c 8233
    || nat_beq c 8239
    || nat_beq c 8287
    || nat_beq c 12288
    || nat_beq c 65279

unfoldable pub trim_start : Str → Str
trim_start [] = []
trim_start (c ∷ s) = let rest = trim_start s in if is_space c then rest else c ∷ s

unfoldable pub trim_end : Str → Str
trim_end [] = []
trim_end (c ∷ s) = elim (trim_end s) [ [] ↦ if is_space c then [] else c ∷ [] | d ∷ t ↦ c ∷ d ∷ t ]

-- `text.trim()`
unfoldable pub trim : Str → Str
unfolding trim_start trim_end is_space
trim s = trim_end (trim_start s)

-- The first part gets one more code unit.
abbrev pub extend_first : ℕ → List Str → List Str
extend_first c [] = (c ∷ []) ∷ []
extend_first c (p ∷ ps) = (c ∷ p) ∷ ps

-- `text.split(",")`
unfoldable pub split_commas : Str → List Str
split_commas [] = [] ∷ []
split_commas (c ∷ s) = if nat_beq c 44 then [] ∷ split_commas s else extend_first c (split_commas s)

-- `filter(Boolean)` keeps the texts that are not empty.
abbrev pub is_filled : Str → Bool
is_filled [] = false
is_filled (c ∷ s) = true

unfoldable pub commands_of : Str → List Str
unfolding trim split_commas
commands_of s = keep is_filled (map trim (split_commas s))

unfoldable pub commands_in : Option Str → Option (List Str)
unfolding commands_of
commands_in none = none
commands_in (some s) = some (commands_of s)

-- `x === "1"`, where `x` may be undefined
unfoldable pub is_one : Option Str → Bool
is_one none = false
is_one (some s) = s == codes "1"

-- `Number(x ?? "") * 1000` where that is a time: `Number("")` is 0.
unfoldable pub seconds_as_ms : Env → Option Str → Option ℕ
seconds_as_ms env none = some 0
seconds_as_ms env (some []) = some 0
seconds_as_ms env (some (c ∷ s)) = env.seconds_as_ms (c ∷ s)

unfoldable pub sink_of : Option Str → Option ProgressSink
sink_of none = none
sink_of (some s) =
    if s == codes "command" then some command else if s == codes "stderr" then some stderr else none

unfoldable pub resolve_progress : Env → Variables → Option ProgressOverrides → RuntimeProgressConfig
unfolding is_one seconds_as_ms sink_of default_config
resolve_progress env vars o =
    let defaults = default_config.progress_updates in
    record {
      enabled =
          or_else (field_of ProgressOverrides.enabled o)
            (is_one (vars (codes "TOOLFLOW_PROGRESS_ENABLED")));
      long_run_threshold_ms = or_else (field_of ProgressOverrides.long_run_threshold_ms o) (
          or_else (seconds_as_ms env (vars (codes "TOOLFLOW_PROGRESS_AFTER_SECONDS")))
            defaults.long_run_threshold_ms);
      interval_ms = or_else (field_of ProgressOverrides.interval_ms o) (
          or_else (seconds_as_ms env (vars (codes "TOOLFLOW_PROGRESS_INTERVAL_SECONDS")))
            defaults.interval_ms);
      sink =
          or_else (field_of ProgressOverrides.sink o)
            (or_else (sink_of (vars (codes "TOOLFLOW_PROGRESS_SINK"))) defaults.sink);
      command =
          or_option (field_of ProgressOverrides.command o)
            (or_option (vars (codes "TOOLFLOW_PROGRESS_COMMAND")) defaults.command);
    }

unfoldable pub resolve_config : Env → Variables → Overrides → RuntimeConfig
unfolding is_one commands_in resolve_progress default_config
resolve_config env vars o = record {
  ledger_root = env.resolve (
      or_else o.ledger_root
        (or_else (vars (codes "TOOLFLOW_LEDGER_DIR")) default_config.ledger_root));
  taskflow_mirror_root = env.resolve (
      or_else o.taskflow_mirror_root (
        or_else (vars (codes "TOOLFLOW_TASKFLOW_MIRROR_DIR")) default_config.taskflow_mirror_root));
  grant_ttl_seconds = or_else o.grant_ttl_seconds default_config.grant_ttl_seconds;
  enable_elevated = or_else o.enable_elevated (is_one (vars (codes "TOOLFLOW_ENABLE_ELEVATED")));
  elevated_allowed_commands = or_else o.elevated_allowed_commands (
      or_else (commands_in (vars (codes "TOOLFLOW_ELEVATED_ALLOW")))
        default_config.elevated_allowed_commands);
  progress_updates = resolve_progress env vars o.progress_updates;
}

-- A resolved configuration, given as overrides once more.
unfoldable pub as_overrides : RuntimeConfig → Overrides
as_overrides c = record {
  ledger_root = some c.ledger_root;
  taskflow_mirror_root = some c.taskflow_mirror_root;
  grant_ttl_seconds = some c.grant_ttl_seconds;
  enable_elevated = some c.enable_elevated;
  elevated_allowed_commands = some c.elevated_allowed_commands;
  progress_updates = some (record {
    enabled = some c.progress_updates.enabled;
    long_run_threshold_ms = some c.progress_updates.long_run_threshold_ms;
    interval_ms = some c.progress_updates.interval_ms;
    sink = some c.progress_updates.sink;
    command = c.progress_updates.command;
  });
}

or_option_self :
    {A : Type 0} (a b c : Option A)
    → or_option (or_option a (or_option b c)) (or_option b c) ≡ or_option a (or_option b c)
or_option_self (some a) b c = refl
or_option_self none (some b) c = refl
or_option_self none none none = refl
or_option_self none none (some c) = refl

-- If resolving a path twice is resolving it once, a configuration that was resolved is not changed
-- when `resolveConfig` is given it again, as every operation does that passes its own on.
pub resolve_config-again :
    (env : Env) (vars : Variables) (o : Overrides)
    → ((p : Str) → env.resolve (env.resolve p) ≡ env.resolve p)
    → resolve_config env vars (as_overrides (resolve_config env vars o)) ≡ resolve_config env vars o
unfolding resolve_config resolve_progress as_overrides
resolve_config-again env vars o h = λ i. record (resolve_config env vars o) {
  ledger_root =
      h
        (or_else o.ledger_root
          (or_else (vars (codes "TOOLFLOW_LEDGER_DIR")) default_config.ledger_root))
        i;
  taskflow_mirror_root =
      h
        (or_else o.taskflow_mirror_root (
          or_else (vars (codes "TOOLFLOW_TASKFLOW_MIRROR_DIR"))
            default_config.taskflow_mirror_root))
        i;
  progress_updates = record (resolve_progress env vars o.progress_updates) {
    command =
        or_option_self (field_of ProgressOverrides.command o.progress_updates)
          (vars (codes "TOOLFLOW_PROGRESS_COMMAND")) default_config.progress_updates.command i;
  };
}
