-- ===== src/Classifier/Decision.antt =====
-- The decision of the classifier, in terms of the steps of the graph alone.
use tool_flow.Prelude.{
  ℕ, Bool, true, false, not, ◌&&◌, ◌||◌, ◌≡◌, refl, ◌∙◌, ◌≢◌, List, [], ◌∷◌, ◌++◌, map, any,
  any-eq-false_of_keep, sym, keep, contains, arith, if◌then◌else◌, ◌==◌, str_eq,
}
use tool_flow.Types.{
  CellId, session, cell_eq, cell_beq, action_eq, action_beq, Action, is_elevated, PreflightDecision,
  allow, allow_with_warnings, requires_approval, reject, Note, session_semantics, CompiledStep,
  CompiledGraph, RawWorkflow, WorkflowSource, ok, toolflow_cells, toolflow_actions,
}
use tool_flow.Env.{Env}
use tool_flow.Config.{RuntimeConfig}
use tool_flow.Compiler.Graph.{compile_workflow, graph_schema_version}
use tool_flow.Compiler.Graph.WellFormed.{compile_workflow-IsWellFormed}
use tool_flow.Compiler.Normalize.{is_empty}
use tool_flow.Classifier.{
  needs_approval, classify_approvals, node_failures, classify_capabilities, is_review,
  classify_replay, classify_side_effects, classify_structural, decide_outcome, proof_bundle_at,
}

is_empty-append : {A : Type 0} (xs ys : List A) → is_empty (xs ++ ys) ≡ (is_empty xs && is_empty ys)
is_empty-append [] ys = refl
is_empty-append (x ∷ xs) ys = refl

is_empty-keep :
    {A B : Type 0} (f : A → B) (p : A → Bool) (xs : List A)
    → is_empty (map f (keep p xs)) ≡ not (any p xs)
is_empty-keep f p [] = refl
is_empty-keep f p (x ∷ xs) = ground (arith, is_empty-keep f p xs)

any_of_keep :
    {A : Type 0} (p : A → Bool) (xs : List A) (y : A) (ys : List A)
    → keep p xs ≡ y ∷ ys
    → any p xs ≡ true
any_of_keep p [] y ys h = cc
any_of_keep p (x ∷ xs) y ys h = ground (arith, any_of_keep p xs y ys)

any-or :
    {A : Type 0} (p q : A → Bool) (xs : List A) → any (λ x. p x || q x) xs ≡ (any p xs || any q xs)
any-or p q [] = refl
any-or p q (x ∷ xs) = ground (arith, any-or p q xs)

known_cell : (c : CellId) → contains toolflow_cells c ≡ true
unfolding contains cell_beq
known_cell c = ground arith

known_action : (a : Action) → contains toolflow_actions a ≡ true
unfolding contains action_beq
known_action a = ground arith

node_failures-eq :
    (config : RuntimeConfig) (n : CompiledStep)
    → is_empty (node_failures config n) ≡ not (is_elevated n.cell && not config.enable_elevated)
unfolding node_failures
node_failures-eq config n = rw (known_cell n.cell, known_action n.action) (ground arith)

capabilities-eq :
    (config : RuntimeConfig) (ns : List CompiledStep)
    → is_empty (classify_capabilities ns config)
      ≡ not (any needs_approval ns && not config.enable_elevated)
unfolding classify_capabilities
capabilities-eq config [] = refl
capabilities-eq config (n ∷ ns) =
    is_empty-append (node_failures config n) (classify_capabilities ns config)
    ∙ ground (arith, node_failures-eq config n, capabilities-eq config ns)

approvals-eq : (g : CompiledGraph) → (classify_approvals g).0 ≡ any needs_approval g.nodes
unfolding classify_approvals
approvals-eq g = go (keep needs_approval g.nodes) refl
  where
    go :
        (l : List CompiledStep)
        → keep needs_approval g.nodes ≡ l
        → (classify_approvals g).0 ≡ any needs_approval g.nodes
    go [] e = rw (e, classify_approvals) (sym (any-eq-false_of_keep needs_approval g.nodes e))
    go (n ∷ ns) e = rw (e, classify_approvals) (sym (any_of_keep needs_approval g.nodes n ns e))

decide_outcome-eq :
    (fs ws : List Note) (a : Bool)
    → decide_outcome fs ws a ≡ (
        if is_empty fs
        then if a then requires_approval else if is_empty ws then allow else allow_with_warnings
        else reject)
unfolding decide_outcome
decide_outcome-eq (f ∷ fs) ws a = refl
decide_outcome-eq [] ws true = refl
decide_outcome-eq [] [] false = refl
decide_outcome-eq [] (w ∷ ws) false = refl

-- A step that the classifier warns of.
abbrev pub is_noted : CompiledStep → Bool
is_noted n = is_review n.replay_class || n.cell == session

-- What the decision should be.
pub preflight : Bool → List CompiledStep → PreflightDecision
preflight enable_elevated nodes =
    if any needs_approval nodes
    then if enable_elevated then requires_approval else reject
    else if any is_noted nodes
    then allow_with_warnings
    else allow

structural-eq :
    (g : CompiledGraph)
    → g.schema_version ≡ graph_schema_version
    → g.nodes ≢ []
    → classify_structural g ≡ []
unfolding classify_structural
structural-eq g v n = go g.nodes refl
  where
    go : (l : List CompiledStep) → g.nodes ≡ l → classify_structural g ≡ []
    go [] e = absurd (n e)
    go (x ∷ xs) e =
        rw (e, classify_structural)
          (rw ((str_eq.beq_iff g.schema_version graph_schema_version).1 v))

decision-eq :
    (config : RuntimeConfig) (g : CompiledGraph)
    → classify_structural g ≡ []
    → decide_outcome
        (classify_structural g ++ classify_capabilities g.nodes config)
        (classify_replay g ++ classify_side_effects g)
        (classify_approvals g).0
      ≡ preflight config.enable_elevated g.nodes
unfolding preflight classify_replay classify_side_effects
decision-eq config g s =
    rw (s, decide_outcome-eq, approvals-eq g, capabilities-eq config g.nodes)
      (rw
        (
          is_empty-append (classify_replay g) (classify_side_effects g),
          is_empty-keep (λ n. Note.review_before_replay n.id) (λ n. is_review n.replay_class)
              g.nodes,
          is_empty-keep (λ n. session_semantics n.id) (λ n. n.cell == session) g.nodes,
          any-or (λ n. is_review n.replay_class) (λ n. n.cell == session) g.nodes,
        )
        (ground arith))

-- For a compiled graph the decision is: with an elevated step, `requires_approval` if the
-- configuration enables the elevated lane and `reject` if not; without one,
-- `allow_with_warnings` if some step needs review before replay or runs in a session, else `allow`.
pub proof_bundle-decision :
    (env : Env) (raw : RawWorkflow) (w : WorkflowSource) (g : CompiledGraph)
    (config : RuntimeConfig) (now : ℕ)
    → compile_workflow env raw ≡ ok (w, g)
    → (proof_bundle_at env g config now).decision ≡ preflight config.enable_elevated g.nodes
unfolding proof_bundle_at
proof_bundle-decision env raw w g config now h =
    let wf = compile_workflow-IsWellFormed env raw w g h in
    decision-eq config g (structural-eq g wf.version wf.some_node)
