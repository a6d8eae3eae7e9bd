-- ===== src/Compiler/Cycles.antt =====
-- `detectCycles` of packages/runtime/src/compiler/build-graph.ts: a depth-first search that marks
-- the steps on the current path and the steps that are done. The recursion takes fuel.
pub mod Search
pub mod Visit
pub mod Acyclic
use tool_flow.Prelude.{
  ℕ, zero, suc, Option, none, some, or_else, List, [], ◌∷◌, Str, ◌==◌, str_eq, contains, without,
  length, if◌then◌else◌,
}
use tool_flow.Types.{WorkflowStepSource, Result, ok, err, ◌>>=◌, cycle, out_of_fuel}

pub record Marks : Type 0 where
  pub visiting : List Str
  pub visited : List Str

-- `deps.get(id) ?? []`; of two entries with one id `new Map` keeps the later.
unfoldable pub find_deps : List WorkflowStepSource → Str → Option (List Str)
find_deps [] id = none
find_deps (s ∷ ss) id = elim (find_deps ss id) [
  | some deps ↦ some deps
  | none ↦ if s.id == id then some s.depends_on else none
]

unfoldable pub deps_of : List WorkflowStepSource → Str → List Str
unfolding find_deps
deps_of steps id = or_else (find_deps steps id) []

-- `for (const x of xs) visit(x)`
unfoldable pub visit_each : (Str → Marks → Result Marks) → List Str → Marks → Result Marks
visit_each visit [] m = ok m
visit_each visit (x ∷ xs) m = do m ← visit x m; visit_each visit xs m

module _ (deps : Str → List Str) where
  unfoldable pub visit : ℕ → Str → Marks → Result Marks
  unfolding visit_each
  visit zero id m = err out_of_fuel
  visit (suc fuel) id m =
      if contains m.visited id then ok m else if contains m.visiting id then err (cycle id) else do
        m ← visit_each (visit fuel) (deps id) (record m { visiting = id ∷ m.visiting })
        ok (record { visiting = without m.visiting id; visited = id ∷ m.visited })

unfoldable pub no_marks : Marks
no_marks = record { visiting = []; visited = [] }

abbrev pub step_ids : List WorkflowStepSource → List Str
step_ids [] = []
step_ids (s ∷ ss) = s.id ∷ step_ids ss

-- The fuel is one more than the number of steps, which the depth of the search never passes.
unfoldable pub detect_cycles : List WorkflowStepSource → Result Marks
unfolding visit visit_each deps_of no_marks
detect_cycles steps =
    visit_each (visit (deps_of steps) (suc (length steps))) (step_ids steps) no_marks
