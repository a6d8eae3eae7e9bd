-- ===== src/Compiler/Cycles/Acyclic.antt =====
-- The outcomes of `detectCycles` (compiler/build-graph.ts) and the cycles of the dependencies.
use tool_flow.Prelude.{
  ℕ, suc, ◌≤◌, ◌<◌, true, false, not, ◌≡◌, refl, ap, ◌⊎◌, inl, inr, List, [], ◌∷◌, Str, ◌==◌,
  str_eq, eq_of_beq, contains, All, All-contains, All-of_contains, length, tally-le, if◌then◌else◌,
  Bool-cases, arith, subst, some, Option-cases,
}
use tool_flow.Types.{WorkflowStepSource, Result, ok, err, cycle}
use tool_flow.Compiler.Cycles.{Marks, visit, find_deps, deps_of, no_marks, step_ids, detect_cycles}
use tool_flow.Compiler.Cycles.Search.{Reaches, Ends, Ordered, Kept, Done, each-Ends}
use tool_flow.Compiler.Cycles.Visit.{visit-Ends}

-- The place of a step, counted from the end of the list.
unfoldable pub rank : List Str → Str → ℕ
rank [] x = 0
rank (v ∷ vs) x = let rest = rank vs x in if x == v then suc (length vs) else rest

rank-le : (vs : List Str) (x : Str) → rank vs x ≤ length vs
unfolding rank
rank-le [] x = omega arith
rank-le (v ∷ vs) x = ground (arith, rank-le vs x)

-- In an ordered list a dependency has a smaller rank.
rank-lt :
    (deps : Str → List Str) (vs : List Str) (x d : Str)
    → Ordered deps vs
    → contains vs x ≡ true
    → contains (deps x) d ≡ true
    → (rank vs d < rank vs x) × (contains vs d ≡ true)
unfolding rank contains
rank-lt deps [] x d o c h = cc
rank-lt deps (v ∷ vs) x d o c h = elim (Bool-cases (x == v)) [
  | inl same ↦
      let here =
        All-contains (λ y. contains vs y ≡ true) (deps v) d o.1
          (subst (λ y. contains (deps y) d ≡ true) (eq_of_beq x v same) h) in
      ground (arith, o.0, rank-le vs d, apart d here)
  | inr other ↦
      let ih = rank-lt deps vs x d o.2 (ground arith) h in ground (arith, ih, apart d ih.1)
]
  where
    apart : (y : Str) → contains vs y ≡ true → (y == v) ≡ false
    apart y c = elim (Bool-cases (y == v)) [
      | inl same ↦ absurd (clash (subst (λ z. contains vs z ≡ true) (eq_of_beq y v same) c))
      | inr e ↦ e
    ]
      where
        clash : contains vs v ≡ true → ⊥
        clash e = cc (o.0)

abbrev pub AllKnown : List WorkflowStepSource → Type 0
AllKnown steps = All (λ s. All (λ d. contains (step_ids steps) d ≡ true) s.depends_on) steps

find_deps_known :
    (P : List Str → Type 0) (steps : List WorkflowStepSource) (id : Str) (ds : List Str)
    → All (λ s. P s.depends_on) steps
    → find_deps steps id ≡ some ds
    → P ds
unfolding find_deps
find_deps_known P [] id ds k e = cc
find_deps_known P (s ∷ ss) id ds k e = elim (Option-cases (find_deps ss id)) [
  | inl n ↦ elim (Bool-cases (s.id == id)) [
    | inl same ↦ subst P (ground arith) k.0
    | inr other ↦ ground arith
  ]
  | inr (es, f) ↦ find_deps_known P ss id ds k.1 (ground arith)
]

deps_of_known :
    (P : List Str → Type 0) (steps : List WorkflowStepSource) (id : Str)
    → P []
    → All (λ s. P s.depends_on) steps
    → P (deps_of steps id)
unfolding deps_of
deps_of_known P steps id z k = elim (Option-cases (find_deps steps id)) [
  | inl n ↦ rw (n, deps_of) z
  | inr (ds, f) ↦ rw (f, deps_of) (find_deps_known P steps id ds k f)
]

length-step_ids : (steps : List WorkflowStepSource) → length (step_ids steps) ≡ length steps
length-step_ids [] = refl
length-step_ids (s ∷ ss) = ap suc (length-step_ids ss)

-- The outcome of the whole search, over steps whose dependencies are all steps.
pub detect_cycles-Ends :
    (steps : List WorkflowStepSource)
    → AllKnown steps
    → Ends
        (deps_of steps)
        (λ m. Kept (deps_of steps) no_marks m × All (Done (deps_of steps) m) (step_ids steps))
        (detect_cycles steps)
unfolding detect_cycles no_marks contains
detect_cycles-Ends steps k =
    let deps = deps_of steps in
    let ids = step_ids steps in
    each-Ends deps (visit deps (suc (length steps))) [] ids
      (λ x m c i p.
        visit-Ends deps ids
          (λ y known. deps_of_known (λ ds. All (λ d. contains ids d ≡ true) ds) steps y tt k)
          (suc (length steps)) x m c i (λ y on. absurd (none_on m y p on))
          (omega (arith, tally-le (λ i. not (contains m.visiting i)) ids, length-step_ids steps)))
      ids no_marks (All-of_contains (λ x. contains ids x ≡ true) ids (λ a h. h))
      (record { ordered = tt; apart = λ x h. refl }) (λ y. refl)
  where
    none_on :
        (m : Marks) (y : Str)
        → ((z : Str) → contains m.visiting z ≡ contains {A = Str} [] z)
        → contains m.visiting y ≡ true
        → ⊥
    none_on m y p on = cc (p y)

-- Steps can be put in an order in which every dependency stands before.
abbrev pub Layered : List WorkflowStepSource → Type 0
Layered steps =
    (place : Str → ℕ) × ((id dep : Str)
      → contains (step_ids steps) id ≡ true
      → contains (deps_of steps id) dep ≡ true
      → place dep < place id)

-- If every dependency names a step, `detect_cycles` returns: either with marks, and then the steps
-- have an order in which each dependency stands before the step that names it, or with the error
-- for a step that depends on itself through a chain of dependencies.
pub detect_cycles_decides :
    (steps : List WorkflowStepSource)
    → AllKnown steps
    → ((m : Marks) × (detect_cycles steps ≡ ok m) × Layered steps)
      ⊎ ((x : Str) × (detect_cycles steps ≡ err (cycle x)) × Reaches (deps_of steps) x x)
detect_cycles_decides steps k = go (detect_cycles steps) refl (detect_cycles-Ends steps k)
  where
    go :
        (r : Result Marks)
        → detect_cycles steps ≡ r
        → Ends
            (deps_of steps)
            (λ m. Kept (deps_of steps) no_marks m × All (Done (deps_of steps) m) (step_ids steps))
            r
        → ((m : Marks) × (detect_cycles steps ≡ ok m) × Layered steps)
          ⊎ ((x : Str) × (detect_cycles steps ≡ err (cycle x)) × Reaches (deps_of steps) x x)
    go (ok m) e h = inl (
      m,
      e,
      (
        rank m.visited,
        λ id dep c d.
            (rank-lt (deps_of steps) m.visited id dep h.0.inv.ordered
              (All-contains (λ x. contains m.visited x ≡ true) (step_ids steps) id h.1 c) d).0,
      ),
    )
    go (err (cycle x)) e h = inr (x, e, h)
    go (err _) e h = absurd h
