-- ===== src/Policy/Allowed.antt =====
-- Which actions the compiled policy lets a cell carry out.
use tool_flow.Prelude.{
  ℕ, Bool, true, false, ◌≡◌, refl, ◌↔◌, none, some, contains, arith, any, ◌&&◌, if◌then◌else◌,
}
use tool_flow.Types.{
  CellId, elevated, Action, action_eq, action_beq, is_elevated, CompiledStep, CompiledGraph,
}
use tool_flow.Env.{Env}
use tool_flow.Config.{RuntimeConfig}
use tool_flow.Compiler.Normalize.{infer_cell}
use tool_flow.Policy.{elevated_lane, allowed_actions, policy_artifact_at, evaluate_step_policy}

allowed_actions_iff :
    (lane : Bool) (c : CellId) (a : Action)
    → (contains (allowed_actions lane c) a ≡ true)
      ↔ ((infer_cell a ≡ c) × (c ≡ elevated → lane ≡ true))
unfolding allowed_actions contains action_beq infer_cell
allowed_actions_iff lane c a = ground arith

none_iff : {A : Type 0} (b : Bool) (a : A) → ((if b then none else some a) ≡ none) ↔ (b ≡ true)
none_iff true a = (λ e. refl, λ e. refl)
none_iff false a = (λ e. absurd (cc), λ e. absurd (cc))

and_iff : (a b : Bool) → ((a && b) ≡ true) ↔ ((a ≡ true) × (b ≡ true))
and_iff a b = ground arith

-- The policy compiled from a graph accepts a step exactly if the step's cell is the one that its
-- action runs in and, where that is the elevated cell, the graph has an elevated step and the
-- configuration enables the elevated lane.
pub evaluate_step_policy_iff :
    (env : Env) (g : CompiledGraph) (config : RuntimeConfig) (now : ℕ) (step : CompiledStep)
    → (evaluate_step_policy step (policy_artifact_at env g config now) ≡ none) ↔ (
        (infer_cell step.action ≡ step.cell)
        × (step.cell ≡ elevated
            → (any (λ n. is_elevated n.cell) g.nodes ≡ true) × (config.enable_elevated ≡ true)))
unfolding evaluate_step_policy policy_artifact_at elevated_lane
evaluate_step_policy_iff env g config now step =
    let i = allowed_actions_iff (elevated_lane g config) step.cell step.action in
    let j =
      none_iff (contains (allowed_actions (elevated_lane g config) step.cell) step.action)
        (step.action, step.cell) in
    let k = and_iff (any (λ n. is_elevated n.cell) g.nodes) config.enable_elevated in
    (
      λ e. let (cell, lane) = i.0 (j.0 e) in (cell, λ q. k.0 (lane q)),
      λ h. j.1 (i.1 (h.0, λ q. k.1 (h.1 q))),
    )
