-- ===== src/Cells/Quiet.antt =====
-- The cells and the ledger.
use tool_flow.Prelude.{ℕ, suc, ◌≡◌, refl, ◌∙◌, List, [], ◌∷◌, Str, Option, none, some, arith}
use tool_flow.Types.{
  Fields, BridgeRequest, Failure, Json, null, undefined, bool, num, text, arr, obj,
}
use tool_flow.Env.{Env}
use tool_flow.World.{World, M, ◌>>=◌, After-bind, require}
use tool_flow.Cells.{
  stat_entries, read_file_action, list_files_action, run_read_cell, run_research_cell,
  run_session_cell,
}
use tool_flow.Cells.Elevated.{run_exec_command, run_apply_patch, verify_fields, run_elevated_cell}

abbrev pub Quiet : {A : Type 0} → M A → Type 0
Quiet {A} m = (w : World) → (m w).1.ledger ≡ w.ledger

pub Quiet-bind :
    {A B : Type 0} (m : M A) (f : A → M B) → Quiet m → ((a : A) → Quiet (f a)) → Quiet (m >>= f)
Quiet-bind {A} {B} m f q k w =
    After-bind (λ r v. v.ledger ≡ w.ledger) (λ r v. v.ledger ≡ w.ledger) m f w (q w)
      (λ a v h. k a v ∙ h) (λ e v h. h)

require-Quiet : {A : Type 0} (e : Failure) (o : Option A) → Quiet (require e o)
require-Quiet e none w = refl
require-Quiet e (some a) w = refl

stat_entries-Quiet :
    (env : Env) (path : Str) (names : List Str) → Quiet (stat_entries env path names)
unfolding stat_entries
stat_entries-Quiet env path [] w = refl
stat_entries-Quiet env path (name ∷ names) w =
    ground (arith, stat_entries-Quiet env path names (record w { effects = suc w.effects }))

read_file_action-Quiet : (env : Env) (p : Fields) → Quiet (read_file_action env p)
unfolding read_file_action
read_file_action-Quiet env p w = ground arith

run_exec_command-Quiet :
    (env : Env) (allowed : List Str) (p : Fields) → Quiet (run_exec_command env allowed p)
unfolding run_exec_command
run_exec_command-Quiet env allowed p w = ground arith

list_files_action-Quiet : (env : Env) (p : Fields) → Quiet (list_files_action env p)
unfolding list_files_action
list_files_action-Quiet env p w = grind (arith, stat_entries-Quiet)

verify_fields-Quiet :
    (env : Env) (cwd : Str) (j : Json) (exit : Option ℕ) → Quiet (verify_fields env cwd j exit)
unfolding verify_fields
verify_fields-Quiet env cwd (text s) exit w = ground arith
verify_fields-Quiet env cwd null exit w = refl
verify_fields-Quiet env cwd undefined exit w = refl
verify_fields-Quiet env cwd (bool b) exit w = refl
verify_fields-Quiet env cwd (num n) exit w = refl
verify_fields-Quiet env cwd (arr xs) exit w = refl
verify_fields-Quiet env cwd (obj fs) exit w = refl

run_apply_patch-Quiet : (env : Env) (p : Fields) → Quiet (run_apply_patch env p)
unfolding run_apply_patch
run_apply_patch-Quiet env p w = grind (arith, verify_fields-Quiet)

pub run_read_cell-Quiet : (env : Env) (request : BridgeRequest) → Quiet (run_read_cell env request)
unfolding run_read_cell
run_read_cell-Quiet env request w = ground (
  arith,
  read_file_action-Quiet env request.payload w,
  list_files_action-Quiet env request.payload w,
)

pub run_research_cell-Quiet :
    (env : Env) (request : BridgeRequest) → Quiet (run_research_cell env request)
unfolding run_research_cell
run_research_cell-Quiet env request w = ground arith

pub run_session_cell-Quiet :
    (env : Env) (request : BridgeRequest) → Quiet (run_session_cell env request)
unfolding run_session_cell
run_session_cell-Quiet env request w = ground arith

pub run_elevated_cell-Quiet :
    (env : Env) (allowed : List Str) (request : BridgeRequest)
    → Quiet (run_elevated_cell env allowed request)
unfolding run_elevated_cell
run_elevated_cell-Quiet env allowed request w = ground (
  arith,
  run_exec_command-Quiet env allowed request.payload w,
  run_apply_patch-Quiet env request.payload w,
)
