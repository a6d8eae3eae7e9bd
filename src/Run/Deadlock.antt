-- ===== src/Run/Deadlock.antt =====
-- Which steps of a well formed graph the scheduler finds.
use tool_flow.Prelude.{
  ℕ, ◌<◌, Bool, true, false, ◌&&◌, ◌||◌, ◌≡◌, List, Str, none, some, lookup, str_eq, contains, All,
  all,
}
use tool_flow.Types.{StepManifest, CompiledStep, is_pending, is_succeeded}
use tool_flow.Env.{Env}
use tool_flow.Compiler.Graph.WellFormed.{node_ids}
use tool_flow.Run.Manifest.{Steps, dep_succeeded}

-- The step has an entry, which is still to be carried out or is done.
abbrev pub IsOnTrack : Steps → CompiledStep → Type 0
IsOnTrack steps n =
    (s : StepManifest) × (lookup steps n.id ≡ some s)
    × ((is_pending s.state || is_succeeded s.state) ≡ true)

-- The step is pending.
abbrev pub waits : Steps → CompiledStep → Bool
waits steps n = elim (lookup steps n.id) [ none ↦ false | some s ↦ is_pending s.state ]

abbrev can_run : Steps → CompiledStep → Bool
can_run steps n = elim (lookup steps n.id) [
  | none ↦ false
  | some s ↦ is_pending s.state && all (dep_succeeded steps) n.depends_on
]

module _ (steps : Steps) (ns : List CompiledStep) (place : Str → ℕ) where
  abbrev Fits : CompiledStep → Type 0
  Fits n =
      IsOnTrack steps n
      × All (λ d. contains (node_ids ns) d ≡ true) n.depends_on
      × All (λ d. place d < place n.id) n.depends_on

-- What may be carried out: the step is pending and each of its dependencies has succeeded.
abbrev pub IsDue : Steps → CompiledStep → Type 0
IsDue steps n = (waits steps n ≡ true) × (all (dep_succeeded steps) n.depends_on ≡ true)
