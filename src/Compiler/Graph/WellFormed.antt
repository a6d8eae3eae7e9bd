-- ===== src/Compiler/Graph/WellFormed.antt =====
-- What a compiled graph satisfies.
use tool_flow.Prelude.{
  or_else, ℕ, ◌<◌, true, false, ◌≡◌, refl, sym, ap, ◌≢◌, inl, inr, List, [], ◌∷◌, map, Str, str_eq,
  beq_self, contains, All, All-of_contains, All-map_pred, Distinct, Bool-cases, arith, subst, none,
  some, Option-cases, Table,
}
use tool_flow.Types.{
  RawWorkflow, WorkflowStepSource, WorkflowSource, bridge_v1, CompiledStep, CompiledGraph, obj,
  InputValue, RawStep, ok, Holds, Holds-bind, Holds-ok,
}
use tool_flow.Env.{Env}
use tool_flow.Hashing.{hash_json}
use tool_flow.Compiler.Normalize.{is_step_id, normalize_workflow}
use tool_flow.Compiler.Normalize.Steps.{NormalizesAll, AllNormalize, normalize_workflow-Holds}
use tool_flow.Compiler.Variables.{resolve_fields, resolve_steps, resolve_variables}
use tool_flow.Compiler.Cycles.{Marks, step_ids, find_deps, deps_of, detect_cycles}
use tool_flow.Compiler.Cycles.Acyclic.{AllKnown, Layered, detect_cycles_decides}
use tool_flow.Compiler.Graph.{
  find_unknown, check_dependencies, compile_step, build_graph, compile_workflow,
  graph_schema_version,
}

abbrev pub node_ids : List CompiledStep → List Str
node_ids [] = []
node_ids (n ∷ ns) = n.id ∷ node_ids ns

pub record IsWellFormed (env : Env) (g : CompiledGraph) : Type 0 where
  pub version : g.schema_version ≡ graph_schema_version
  pub some_node : g.nodes ≢ []
  pub distinct : Distinct (node_ids g.nodes)
  pub valid_ids : All (λ n. is_step_id n.id ≡ true) g.nodes
  pub known : All (λ n. All (λ d. contains (node_ids g.nodes) d ≡ true) n.depends_on) g.nodes
  pub bound_bridge : All (λ n. n.bridge_id ≡ bridge_v1 n.cell) g.nodes
  pub bound_payload : All (λ n. n.payload_hash ≡ hash_json env (obj n.payload)) g.nodes
  pub place : Str → ℕ
  pub layered : All (λ n. All (λ d. place d < place n.id) n.depends_on) g.nodes

find_unknown-none :
    (ids deps : List Str) → find_unknown ids deps ≡ none → All (λ d. contains ids d ≡ true) deps
unfolding find_unknown
find_unknown-none ids [] h = tt
find_unknown-none ids (d ∷ ds) h = elim (Bool-cases (contains ids d)) [
  | inl e ↦ (e, find_unknown-none ids ds (rw e at h))
  | inr e ↦ absurd (cc (rw e at h))
]

check_dependencies-ok :
    (ids : List Str) (ss : List WorkflowStepSource)
    → check_dependencies ids ss ≡ ok tt
    → All (λ s. All (λ d. contains ids d ≡ true) s.depends_on) ss
unfolding check_dependencies
check_dependencies-ok ids [] h = tt
check_dependencies-ok ids (s ∷ ss) h = elim (Option-cases (find_unknown ids s.depends_on)) [
  | inl e ↦ (
    find_unknown-none ids s.depends_on e,
    check_dependencies-ok ids ss (rw (e, check_dependencies) at h),
  )
  | inr (d, e) ↦ absurd (cc (rw (e, check_dependencies) at h))
]

-- Resolving variables touches the arguments only.
abbrev SameShape : List WorkflowStepSource → List WorkflowStepSource → Type 0
SameShape [] [] = Unit
SameShape [] (t ∷ ts) = ⊥
SameShape (s ∷ ss) [] = ⊥
SameShape (s ∷ ss) (t ∷ ts) =
    ((t.id ≡ s.id) × (t.depends_on ≡ s.depends_on) × (t.cell ≡ s.cell) × (t.action ≡ s.action))
    × SameShape ss ts

resolve_steps-Holds :
    (env : Env) (inputs : Table Str InputValue) (ss : List WorkflowStepSource)
    → Holds (SameShape ss) (resolve_steps env inputs ss)
unfolding resolve_steps
resolve_steps-Holds env inputs [] = tt
resolve_steps-Holds env inputs (s ∷ ss) =
    Holds-bind (SameShape (s ∷ ss)) (resolve_fields env inputs s.args) _ λ args e1.
      Holds-bind (SameShape (s ∷ ss)) (resolve_steps env inputs ss) _ λ rest e2. (
        (refl, refl, refl, refl),
        Holds-ok (SameShape ss) (resolve_steps env inputs ss) e2
            (resolve_steps-Holds env inputs ss),
      )

SameShape-ids : (ss ts : List WorkflowStepSource) → SameShape ss ts → step_ids ts ≡ step_ids ss
SameShape-ids [] [] h = refl
SameShape-ids [] (t ∷ ts) h = absurd h
SameShape-ids (s ∷ ss) [] h = absurd h
SameShape-ids (s ∷ ss) (t ∷ ts) h = cc (h.0.0, SameShape-ids ss ts h.1)

SameShape-nonempty : (ss ts : List WorkflowStepSource) → SameShape ss ts → ss ≢ [] → ts ≢ []
SameShape-nonempty [] ts h n = absurd (n refl)
SameShape-nonempty (s ∷ ss) [] h n = absurd h
SameShape-nonempty (s ∷ ss) (t ∷ ts) h n = λ p. cc

SameShape-valid :
    (raws : List RawStep) (ss ts : List WorkflowStepSource)
    → AllNormalize raws ss
    → SameShape ss ts
    → All (λ t. is_step_id t.id ≡ true) ts
SameShape-valid raws [] [] n h = tt
SameShape-valid raws [] (t ∷ ts) n h = absurd h
SameShape-valid raws (s ∷ ss) [] n h = absurd h
SameShape-valid [] (s ∷ ss) (t ∷ ts) n h = absurd n
SameShape-valid (r ∷ rs) (s ∷ ss) (t ∷ ts) n h =
    (subst (λ x. is_step_id x ≡ true) (sym h.0.0) n.0.valid_id, SameShape-valid rs ss ts n.1 h.1)

node_ids-map :
    (env : Env) (ss : List WorkflowStepSource) → node_ids (map (compile_step env) ss) ≡ step_ids ss
unfolding compile_step
node_ids-map env [] = refl
node_ids-map env (s ∷ ss) = ap (λ t. s.id ∷ t) (node_ids-map env ss)

All-compile :
    (env : Env) (P : CompiledStep → Type 0) (ss : List WorkflowStepSource)
    → All (λ s. P (compile_step env s)) ss
    → All P (map (compile_step env) ss)
All-compile env P [] h = tt
All-compile env P (s ∷ ss) h = (h.0, All-compile env P ss h.1)

All-every : {A : Type 0} (P : A → Type 0) (xs : List A) → ((x : A) → P x) → All P xs
All-every P [] f = tt
All-every P (x ∷ xs) f = (f x, All-every P xs f)

find_deps-none :
    (ss : List WorkflowStepSource) (id : Str)
    → contains (step_ids ss) id ≡ false
    → find_deps ss id ≡ none
unfolding find_deps contains
find_deps-none [] id h = refl
find_deps-none (s ∷ ss) id h =
    ground (arith, find_deps-none ss id, str_eq.beq_iff s.id id, str_eq.beq_iff id s.id)

-- With distinct ids the search looks at the dependencies of the step itself.
deps_of_Distinct :
    (ss : List WorkflowStepSource)
    → Distinct (step_ids ss)
    → All (λ s. find_deps ss s.id ≡ some s.depends_on) ss
unfolding find_deps contains
deps_of_Distinct [] d = tt
deps_of_Distinct (s ∷ ss) d = (
  ground (arith, find_deps-none ss s.id, beq_self s.id),
  All-map_pred {P = λ t. find_deps ss t.id ≡ some t.depends_on}
      {Q = λ t. find_deps (s ∷ ss) t.id ≡ some t.depends_on} (λ t e. rw (e, find_deps)) ss
      (deps_of_Distinct ss d.1),
)

All-zip :
    {A : Type 0} (P Q R : A → Type 0) (xs : List A)
    → ((x : A) → P x → Q x → R x)
    → All P xs
    → All Q xs
    → All R xs
All-zip P Q R [] f p q = tt
All-zip P Q R (x ∷ xs) f p q = (f x p.0 q.0, All-zip P Q R xs f p.1 q.1)

All-ids : (ss : List WorkflowStepSource) → All (λ s. contains (step_ids ss) s.id ≡ true) ss
unfolding contains
All-ids [] = tt
All-ids (s ∷ ss) = (
  ground (arith, beq_self s.id),
  All-map_pred {P = λ t. contains (step_ids ss) t.id ≡ true}
      {Q = λ t. contains (s.id ∷ step_ids ss) t.id ≡ true} (λ t e. ground arith) ss (All-ids ss),
)

Layered-steps :
    (ss : List WorkflowStepSource) (l : Layered ss)
    → Distinct (step_ids ss)
    → All (λ s. All (λ d. l.0 d < l.0 s.id) s.depends_on) ss
unfolding deps_of
Layered-steps ss l d =
    All-zip (λ s. find_deps ss s.id ≡ some s.depends_on) (λ s. contains (step_ids ss) s.id ≡ true)
      (λ s. All (λ d. l.0 d < l.0 s.id) s.depends_on) ss
      (λ s e c.
        All-of_contains (λ d. l.0 d < l.0 s.id) s.depends_on
          λ dep h. l.1 s.id dep c (rw (e, deps_of) h))
      (deps_of_Distinct ss d) (All-ids ss)

map-nonempty : (env : Env) (ss : List WorkflowStepSource) → ss ≢ [] → map (compile_step env) ss ≢ []
map-nonempty env [] n = absurd (n refl)
map-nonempty env (s ∷ ss) n = λ p. cc

build_graph-IsWellFormed :
    (env : Env) (w : WorkflowSource)
    → w.steps ≢ []
    → Distinct (step_ids w.steps)
    → All (λ s. is_step_id s.id ≡ true) w.steps
    → Holds (IsWellFormed env) (build_graph env w)
unfolding build_graph compile_step
build_graph-IsWellFormed env w n d v =
    Holds-bind (IsWellFormed env) (check_dependencies (step_ids w.steps) w.steps) _ λ u e1.
      let known = check_dependencies-ok (step_ids w.steps) w.steps e1 in
      Holds-bind (IsWellFormed env) (detect_cycles w.steps) _ λ m e2.
        let l = layers known e2 in
        record {
          version = refl;
          some_node = map-nonempty env w.steps n;
          distinct = subst Distinct (sym (node_ids-map env w.steps)) d;
          valid_ids = All-compile env (λ n. is_step_id n.id ≡ true) w.steps v;
          known =
              subst
                (λ ids.
                  All (λ n. All (λ d. contains ids d ≡ true) n.depends_on)
                    (map (compile_step env) w.steps))
                (sym (node_ids-map env w.steps))
                (All-compile env (λ n. All (λ d. contains (step_ids w.steps) d ≡ true) n.depends_on)
                  w.steps known);
          bound_bridge =
              All-compile env (λ n. n.bridge_id ≡ bridge_v1 n.cell) w.steps
                (All-every (λ s. bridge_v1 s.cell ≡ bridge_v1 s.cell) w.steps (λ s. refl));
          bound_payload =
              All-compile env (λ n. n.payload_hash ≡ hash_json env (obj n.payload)) w.steps
                (All-every (λ s. hash_json env (obj s.args) ≡ hash_json env (obj s.args)) w.steps
                  (λ s. refl));
          place = l.0;
          layered =
              All-compile env (λ n. All (λ d. l.0 d < l.0 n.id) n.depends_on) w.steps
                (Layered-steps w.steps l d);
        }
  where
    layers : AllKnown w.steps → {m : Marks} → detect_cycles w.steps ≡ ok m → Layered w.steps
    layers k e = elim (detect_cycles_decides w.steps k) [
      | inl (m', e', l) ↦ l
      | inr (x, e', r) ↦ absurd (cc)
    ]

resolve_variables-ok :
    (env : Env) (w : WorkflowSource) {r : WorkflowSource}
    → resolve_variables env w ≡ ok r
    → SameShape w.steps r.steps
resolve_variables-ok env w e =
    Holds-ok (λ r. SameShape w.steps r.steps) (resolve_variables env w) e
      (unfold resolve_variables in
        Holds-bind (λ r. SameShape w.steps r.steps)
          (resolve_steps env (or_else w.inputs []) w.steps) _
          λ ss p.
            Holds-ok (SameShape w.steps) (resolve_steps env (or_else w.inputs []) w.steps) p
              (resolve_steps-Holds env (or_else w.inputs []) w.steps))

compile-Holds :
    (env : Env) (raw : RawWorkflow) → Holds (λ r. IsWellFormed env r.1) (compile_workflow env raw)
unfolding compile_workflow
compile-Holds env raw =
    Holds-bind (λ r. IsWellFormed env r.1) (normalize_workflow raw) _
      λ w e1.
        let n =
          Holds-ok (NormalizesAll raw) (normalize_workflow raw) e1 (normalize_workflow-Holds raw) in
        Holds-bind (λ r. IsWellFormed env r.1) (resolve_variables env w) _
          λ v e2.
            let s = resolve_variables-ok env w e2 in
            Holds-bind (λ r. IsWellFormed env r.1) (build_graph env v) _
              λ g e3. Holds-ok (IsWellFormed env) (build_graph env v) e3 (
                build_graph-IsWellFormed env v (SameShape-nonempty w.steps v.steps s n.some_step)
                  (subst Distinct (sym (SameShape-ids w.steps v.steps s)) n.distinct)
                  (SameShape-valid raw.steps w.steps v.steps n.steps_of s))

-- Every graph that the compiler returns is well formed: it has a node, its ids are valid and
-- distinct, every dependency is the id of a node and stands in a smaller place than the node that
-- names it, each node's bridge is that of its cell and its payload hash is that of its payload.
pub compile_workflow-IsWellFormed :
    (env : Env) (raw : RawWorkflow) (w : WorkflowSource) (g : CompiledGraph)
    → compile_workflow env raw ≡ ok (w, g)
    → IsWellFormed env g
compile_workflow-IsWellFormed env raw w g h =
    Holds-ok (λ r. IsWellFormed env r.1) (compile_workflow env raw) h (compile-Holds env raw)
