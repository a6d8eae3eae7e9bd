-- ===== src/Compiler/Normalize.antt =====
-- packages/runtime/src/compiler/normalize-workflow.ts, and the check of a step id in
-- packages/shared/src/ids.ts.
pub mod Steps
use tool_flow.Prelude.{
  ℕ, Bool, true, false, ◌&&◌, ◌||◌, Option, none, some, or_else, List, [], ◌∷◌, Str, codes, leb,
  ◌==◌, nat_eq, str_eq, contains, length, all, if◌then◌else◌, not,
}
use tool_flow.Types.{
  CellId, read, research, session, elevated, Action, read_file, list_files, research_note,
  session_note, ReplayClass, read_only, idempotent, review_before_replay, cell_of_name,
  action_of_name, replay_class_of_name, RawStep, RawWorkflow, WorkflowStepSource, WorkflowSource,
  end, Result, ok, err, ◌>>=◌, unsupported_schema, no_name, no_steps, invalid_step_id,
  duplicate_step, unsupported_action, unsupported_cell,
}

-- `[A-Za-z0-9]` and `[A-Za-z0-9_-]`
unfoldable pub is_alnum : ℕ → Bool
is_alnum c = (leb b'0' c && leb c b'9') || (leb b'A' c && leb c b'Z') || (leb b'a' c && leb c b'z')

unfoldable pub is_id_char : ℕ → Bool
unfolding is_alnum
is_id_char c = is_alnum c || (c == b'_') || (c == b'-')

-- `/^[A-Za-z0-9][A-Za-z0-9_-]{0,63}$/.test(id)`
unfoldable pub is_step_id : Str → Bool
unfolding is_id_char
is_step_id [] = false
is_step_id (c ∷ s) = is_alnum c && all is_id_char s && leb (length s) 63

unfoldable pub normalize_step_id : Str → Result Str
unfolding is_step_id
normalize_step_id id = if is_step_id id then ok id else err (invalid_step_id id)

unfoldable pub infer_cell : Action → CellId
infer_cell read_file = read
infer_cell list_files = read
infer_cell research_note = research
infer_cell session_note = session
infer_cell _ = elevated

unfoldable pub check_duplicate : List Str → Str → Result Str
check_duplicate seen id = if contains seen id then err (duplicate_step id) else ok id

unfoldable pub check_action : Str → Result Action
check_action s = elim (action_of_name s) [ none ↦ err (unsupported_action s) | some a ↦ ok a ]

-- `step.cell ?? inferCell(step.action)`, checked
unfoldable pub check_cell : Option Str → Action → Result CellId
unfolding infer_cell
check_cell none a = ok (infer_cell a)
check_cell (some s) a = elim (cell_of_name s) [ none ↦ err (unsupported_cell s) | some c ↦ ok c ]

unfoldable pub default_replay : CellId → ReplayClass
default_replay read = read_only
default_replay elevated = review_before_replay
default_replay _ = idempotent

unfoldable pub normalize_replay : Option Str → CellId → ReplayClass
unfolding default_replay
normalize_replay none c = default_replay c
normalize_replay (some s) c = replay_class_of_name s

-- `seen` is the set of the ids before this step; the caller adds this step's.
unfoldable pub normalize_step : RawStep → List Str → Result WorkflowStepSource
unfolding normalize_step_id check_duplicate check_action check_cell normalize_replay
normalize_step step seen = do
  id ← normalize_step_id step.id
  id ← check_duplicate seen id
  action ← check_action step.action
  cell ← check_cell step.cell action
  ok (record {
    id = id;
    action = action;
    cell = cell;
    depends_on = or_else step.depends_on [];
    args = or_else step.args end;
    replay_class = normalize_replay step.replay_class cell;
  })

unfoldable pub normalize_steps : List RawStep → List Str → Result (List WorkflowStepSource)
normalize_steps [] seen = ok []
normalize_steps (s ∷ ss) seen = do
  step ← normalize_step s seen
  rest ← normalize_steps ss (step.id ∷ seen)
  ok (step ∷ rest)

abbrev pub is_empty {ℓ} : {A : Type ℓ} → List A → Bool
is_empty [] = true
is_empty (_ ∷ _) = false

unfoldable pub normalize_workflow : RawWorkflow → Result WorkflowSource
normalize_workflow source =
    if not (source.schema_version == codes "toolflow.workflow/v1")
    then err unsupported_schema
    else if is_empty source.name
    then err no_name
    else if is_empty source.steps
    then err no_steps
    else do
      steps ← normalize_steps source.steps []
      ok (record {
        name = source.name;
        description = source.description;
        inputs = source.inputs;
        steps = steps;
      })
