-- ===== src/Compiler/Normalize/Steps.antt =====
-- What normalisation establishes of the steps of a workflow.
use tool_flow.Prelude.{
  true, false, ◌≡◌, refl, sym, ◌∙◌, ◌⊎◌, ◌≢◌, inl, inr, List, [], ◌∷◌, Str, ◌==◌, str_eq, beq_self,
  eq_of_beq, contains, Distinct, codes, if◌then◌else◌, Bool-cases, arith, subst, Option, none, some,
  or_else,
}
use tool_flow.Types.{
  RawStep, RawWorkflow, WorkflowStepSource, WorkflowSource, action_of_name, cell_of_name, end, ok,
  Holds, Holds-bind, Holds-ok, Action, CellId,
}
use tool_flow.Compiler.Normalize.{
  is_step_id, infer_cell, normalize_replay, normalize_step, normalize_steps, normalize_workflow,
  normalize_step_id, check_duplicate, check_action, check_cell, is_empty,
}
use tool_flow.Compiler.Cycles.{step_ids}

-- The cell that a step asks for, or the one that its action runs in.
abbrev pub CellOf : RawStep → WorkflowStepSource → Type 0
CellOf raw s =
    ((raw.cell ≡ none) × (s.cell ≡ infer_cell s.action))
    ⊎ ((c : Str) × (raw.cell ≡ some c) × (cell_of_name c ≡ some s.cell))

-- A checked step against the step of the file.
pub record Normalizes (raw : RawStep) (s : WorkflowStepSource) : Type 0 where
  pub same_id : s.id ≡ raw.id
  pub valid_id : is_step_id s.id ≡ true
  pub known_action : action_of_name raw.action ≡ some s.action
  pub cell_of : CellOf raw s
  pub deps : s.depends_on ≡ or_else raw.depends_on []
  pub args : s.args ≡ or_else raw.args end
  pub replay : s.replay_class ≡ normalize_replay raw.replay_class s.cell

abbrev pub AllNormalize : List RawStep → List WorkflowStepSource → Type 0
AllNormalize [] [] = Unit
AllNormalize [] (s ∷ ss) = ⊥
AllNormalize (r ∷ rs) [] = ⊥
AllNormalize (r ∷ rs) (s ∷ ss) = Normalizes r s × AllNormalize rs ss

-- None of the steps has an id of `seen`, and no two have one id.
abbrev pub Fresh : List Str → List WorkflowStepSource → Type 0
Fresh seen [] = Unit
Fresh seen (s ∷ ss) = (contains seen s.id ≡ false) × Fresh (s.id ∷ seen) ss

normalize_step_id-ok :
    (id : Str) {r : Str} → normalize_step_id id ≡ ok r → (r ≡ id) × (is_step_id id ≡ true)
unfolding normalize_step_id
normalize_step_id-ok id h = elim (Bool-cases (is_step_id id)) [
  | inl e ↦ (cc (rw e at h), e)
  | inr e ↦ absurd (cc (rw e at h))
]

check_duplicate-ok :
    (seen : List Str) (id : Str) {r : Str}
    → check_duplicate seen id ≡ ok r
    → (r ≡ id) × (contains seen id ≡ false)
unfolding check_duplicate
check_duplicate-ok seen id h = elim (Bool-cases (contains seen id)) [
  | inl e ↦ absurd (cc (rw e at h))
  | inr e ↦ (cc (rw e at h), e)
]

check_action-ok : (s : Str) {a : Action} → check_action s ≡ ok a → action_of_name s ≡ some a
unfolding check_action
check_action-ok s h = ground arith

check_cell-ok :
    (o : Option Str) (a : Action) {c : CellId}
    → check_cell o a ≡ ok c
    → ((o ≡ none) × (c ≡ infer_cell a)) ⊎ ((s : Str) × (o ≡ some s) × (cell_of_name s ≡ some c))
unfolding check_cell
check_cell-ok none a h = inl (refl, cc)
check_cell-ok (some s) a h = inr (s, refl, ground arith)

abbrev pub StepOk : RawStep → List Str → WorkflowStepSource → Type 0
StepOk raw seen s = Normalizes raw s × (contains seen s.id ≡ false)

pub normalize_step-Holds :
    (raw : RawStep) (seen : List Str) → Holds (StepOk raw seen) (normalize_step raw seen)
unfolding normalize_step
normalize_step-Holds raw seen = Holds-bind (StepOk raw seen) (normalize_step_id raw.id) _ λ id e1.
    Holds-bind (StepOk raw seen) (check_duplicate seen id) _ λ id' e2.
      Holds-bind (StepOk raw seen) (check_action raw.action) _ λ action e3.
        Holds-bind (StepOk raw seen) (check_cell raw.cell action) _ λ cell e4.
          let (p1, v) = normalize_step_id-ok raw.id e1 in
          let (p2, f) = check_duplicate-ok seen id e2 in
          (
            record {
              same_id = p2 ∙ p1;
              valid_id = subst (λ x. is_step_id x ≡ true) (sym (p2 ∙ p1)) v;
              known_action = check_action-ok raw.action e3;
              cell_of = check_cell-ok raw.cell action e4;
              deps = refl;
              args = refl;
              replay = refl;
            },
            subst (λ x. contains seen x ≡ false) (sym p2) f,
          )

abbrev pub StepsOk : List RawStep → List Str → List WorkflowStepSource → Type 0
StepsOk raws seen ss = AllNormalize raws ss × Fresh seen ss

pub normalize_steps-Holds :
    (raws : List RawStep) (seen : List Str) → Holds (StepsOk raws seen) (normalize_steps raws seen)
unfolding normalize_steps
normalize_steps-Holds [] seen = (tt, tt)
normalize_steps-Holds (r ∷ rs) seen =
    Holds-bind (StepsOk (r ∷ rs) seen) (normalize_step r seen) _ λ s e1.
      Holds-bind (StepsOk (r ∷ rs) seen) (normalize_steps rs (s.id ∷ seen)) _ λ rest e2.
        let (n, f) =
          Holds-ok (StepOk r seen) (normalize_step r seen) e1 (normalize_step-Holds r seen) in
        let (ns, fs) =
          Holds-ok (StepsOk rs (s.id ∷ seen)) (normalize_steps rs (s.id ∷ seen)) e2
            (normalize_steps-Holds rs (s.id ∷ seen)) in
        ((n, ns), (f, fs))

pub Fresh-Distinct :
    (seen : List Str) (ss : List WorkflowStepSource)
    → Fresh seen ss
    → Distinct (step_ids ss)
      × ((x : Str) → contains (step_ids ss) x ≡ true → contains seen x ≡ false)
unfolding contains
Fresh-Distinct seen [] h = (tt, λ x c. absurd (cc))
Fresh-Distinct seen (s ∷ ss) h =
    let (d, apart) = Fresh-Distinct (s.id ∷ seen) ss h.1 in
    (
      (
        elim (Bool-cases (contains (step_ids ss) s.id)) [
          | inl e ↦ absurd (absurd_self (apart s.id e))
          | inr e ↦ e
        ],
        d,
      ),
      λ x c. elim (Bool-cases (x == s.id)) [
        | inl e ↦ subst (λ y. contains seen y ≡ false) (sym (eq_of_beq x s.id e)) h.0
        | inr e ↦ ground (arith, apart x)
      ],
    )
  where
    absurd_self : contains (s.id ∷ seen) s.id ≡ false → ⊥
    absurd_self e = ground (arith, beq_self s.id)

-- A workflow whose steps are normalised from those of the file `raw`.
pub record NormalizesAll (raw : RawWorkflow) (w : WorkflowSource) : Type 0 where
  pub version : raw.schema_version ≡ codes "toolflow.workflow/v1"
  pub named : w.name ≡ raw.name
  pub steps_of : AllNormalize raw.steps w.steps
  pub distinct : Distinct (step_ids w.steps)
  pub some_step : w.steps ≢ []

steps_nonempty :
    (raws : List RawStep) (ss : List WorkflowStepSource)
    → is_empty raws ≡ false
    → AllNormalize raws ss
    → ss ≢ []
steps_nonempty [] ss e h = absurd (cc)
steps_nonempty (r ∷ rs) [] e h = absurd h
steps_nonempty (r ∷ rs) (s ∷ ss) e h = λ p. cc

pub normalize_workflow-Holds :
    (raw : RawWorkflow) → Holds (NormalizesAll raw) (normalize_workflow raw)
unfolding normalize_workflow
normalize_workflow-Holds raw =
    elim (Bool-cases (raw.schema_version == codes "toolflow.workflow/v1")) [
      | inr e ↦ rw (e, if◌then◌else◌) tt
      | inl e ↦ elim (Bool-cases (is_empty raw.name)) [
        | inl n ↦ rw (e, n) tt
        | inr n ↦ elim (Bool-cases (is_empty raw.steps)) [
          | inl z ↦ rw (e, n, z) tt
          | inr z ↦
              rw (e, n, z)
                (Holds-bind (NormalizesAll raw) (normalize_steps raw.steps []) _ λ ss p.
                  let (ns, f) =
                    Holds-ok (StepsOk raw.steps []) (normalize_steps raw.steps []) p
                      (normalize_steps-Holds raw.steps []) in
                  record {
                    version = eq_of_beq raw.schema_version (codes "toolflow.workflow/v1") e;
                    named = refl;
                    steps_of = ns;
                    distinct = (Fresh-Distinct [] ss f).0;
                    some_step = steps_nonempty raw.steps ss z ns;
                  })
        ]
      ]
    ]
