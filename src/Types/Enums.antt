-- ===== src/Types/Enums.antt =====
-- The string unions of packages/shared/src/types/workflow.ts, grants.ts, receipts.ts,
-- classifier.ts and replay.ts, and the constants of packages/shared/src/constants.ts.
use tool_flow.Prelude.{
  Bool, true, false, ◌≡◌, ◌↔◌, List, [], ◌∷◌, Str, codes, Eq, arith, Option, none, some, ◌==◌,
  if◌then◌else◌, str_eq,
}

pub data CellId : Type 0 where
  read research session elevated : CellId

pub data Action : Type 0 where
  read_file list_files research_note session_note exec_command apply_patch : Action

-- The compiler does not check a replay class, so any other text reaches the graph.
pub data ReplayClass : Type 0 where
  read_only idempotent review_before_replay : ReplayClass
  unlisted : Str → ReplayClass

pub data RunState : Type 0 where
  created compiled ready running awaiting_approval quarantined : RunState
  cancelled succeeded failed rejected : RunState

pub data StepState : Type 0 where
  pending awaiting_approval grant_issued running quarantined : StepState
  cancelled succeeded failed skipped : StepState

pub data GrantState : Type 0 where
  issued consumed expired void : GrantState

pub data ReceiptStatus : Type 0 where
  succeeded failed : ReceiptStatus

pub data PreflightDecision : Type 0 where
  allow allow_with_warnings requires_approval reject : PreflightDecision

pub data ReplayDecision : Type 0 where
  replay_allowed review_required replay_forbidden : ReplayDecision

unfoldable pub cell_beq : CellId → CellId → Bool
cell_beq read read = true
cell_beq research research = true
cell_beq session session = true
cell_beq elevated elevated = true
cell_beq _ _ = false

pub cell_beq_iff : (a b : CellId) → (cell_beq a b ≡ true) ↔ (a ≡ b)
unfolding cell_beq
cell_beq_iff a b = ground arith

unfoldable pub action_beq : Action → Action → Bool
action_beq read_file read_file = true
action_beq list_files list_files = true
action_beq research_note research_note = true
action_beq session_note session_note = true
action_beq exec_command exec_command = true
action_beq apply_patch apply_patch = true
action_beq _ _ = false

pub action_beq_iff : (a b : Action) → (action_beq a b ≡ true) ↔ (a ≡ b)
unfolding action_beq
action_beq_iff a b = ground arith

instance abbrev pub cell_eq : Eq CellId
cell_eq = record { beq = cell_beq; beq_iff = cell_beq_iff }

instance abbrev pub action_eq : Eq Action
action_eq = record { beq = action_beq; beq_iff = action_beq_iff }

-- `cell === "elevated"`
abbrev pub is_elevated : CellId → Bool
is_elevated elevated = true
is_elevated _ = false

-- `state === "pending"`, and so on for the other states that the code tests.
abbrev pub is_pending : StepState → Bool
is_pending StepState.pending = true
is_pending _ = false

abbrev pub is_succeeded : StepState → Bool
is_succeeded StepState.succeeded = true
is_succeeded _ = false

abbrev pub is_failed : StepState → Bool
is_failed StepState.failed = true
is_failed _ = false

abbrev pub is_running : StepState → Bool
is_running StepState.running = true
is_running _ = false

abbrev pub is_awaiting : StepState → Bool
is_awaiting StepState.awaiting_approval = true
is_awaiting _ = false

abbrev pub is_quarantined : StepState → Bool
is_quarantined StepState.quarantined = true
is_quarantined _ = false

-- The texts that the documents hold for cells and actions.
unfoldable pub cell_name : CellId → Str
cell_name read = codes "read"
cell_name research = codes "research"
cell_name session = codes "session"
cell_name elevated = codes "elevated"

unfoldable pub action_name : Action → Str
action_name read_file = codes "read_file"
action_name list_files = codes "list_files"
action_name research_note = codes "research_note"
action_name session_note = codes "session_note"
action_name exec_command = codes "exec_command"
action_name apply_patch = codes "apply_patch"

abbrev pub toolflow_cells : List CellId
toolflow_cells = read ∷ research ∷ session ∷ elevated ∷ []

abbrev pub toolflow_actions : List Action
toolflow_actions =
    read_file ∷ list_files ∷ research_note ∷ session_note ∷ exec_command ∷ apply_patch ∷ []

-- `TOOLFLOW_CELLS.includes(text)`, with the cell that the text names.
unfoldable pub cell_of_name : Str → Option CellId
unfolding cell_name
cell_of_name s = go toolflow_cells
  where
    go : List CellId → Option CellId
    go [] = none
    go (c ∷ cs) = if s == cell_name c then some c else go cs

-- `TOOLFLOW_ACTIONS.includes(text)`, with the action that the text names.
unfoldable pub action_of_name : Str → Option Action
unfolding action_name
action_of_name s = go toolflow_actions
  where
    go : List Action → Option Action
    go [] = none
    go (a ∷ rest) = if s == action_name a then some a else go rest

unfoldable pub replay_class_of_name : Str → ReplayClass
replay_class_of_name s =
    if s == codes "read_only"
    then read_only
    else if s == codes "idempotent"
    then idempotent
    else if s == codes "review_before_replay"
    then review_before_replay
    else unlisted s
