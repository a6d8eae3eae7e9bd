-- ===== src/Cells/Elevated.antt =====
-- packages/elevated/src/cell/runner.ts. `allowed` is what `resolveElevatedConfig` reads from the
-- environment variable TOOLFLOW_ELEVATED_ALLOW.
use tool_flow.Prelude.{
  ℕ, Bool, true, false, List, [], ◌∷◌, ◌++◌, Str, codes, Option, none, some, str_eq, contains,
  String, zero, suc, if◌then◌else◌,
}
use tool_flow.Types.{
  Json, null, num, text, arr, Fields, end, field, get_field, texts, exec_command, apply_patch,
  BridgeRequest, BridgeExecutionResult, command_not_allowed, missing_binary, effect_failed, Result,
  ok, err,
}
use tool_flow.Env.{Env, SpawnResult}
use tool_flow.World.{M, ◌>>=◌, pure, throw, from_result, require, next_effect}
use tool_flow.Cells.{string_arg, array_of_strings, unsupported}

-- `typeof cwd === "string" ? resolve(cwd) : process.cwd()`
unfoldable pub cwd_of : Env → Json → Str
cwd_of env (text s) = env.resolve s
cwd_of env _ = env.cwd

-- `typeof timeoutMs === "number" ? timeoutMs : 10_000`
unfoldable pub timeout_of : Json → Str
timeout_of (num n) = n
timeout_of _ = codes "10000"

unfoldable pub exit_json : Env → Option ℕ → Json
exit_json env none = null
exit_json env (some n) = num (env.decimal n)

unfoldable pub exit_text : Env → Option ℕ → Str
exit_text env none = codes "null"
exit_text env (some n) = env.decimal n

-- `exitCode === 0`
unfoldable pub is_zero_exit : Option ℕ → Bool
is_zero_exit (some n) = elim n [ zero ↦ true | suc _ ↦ false ]
is_zero_exit none = false

unfoldable pub spawn_fields : Env → SpawnResult → Fields → Fields
unfolding exit_json
spawn_fields env r rest =
    field (codes "exitCode") (exit_json env r.exit_code)
      (field (codes "stdout") (text r.stdout) (field (codes "stderr") (text r.stderr) rest))

-- The result of a child process, with the error text `what` and the exit code.
unfoldable pub spawned : Env → String → SpawnResult → Fields → BridgeExecutionResult
unfolding is_zero_exit exit_text
spawned env what r output =
    let good = is_zero_exit r.exit_code in
    record {
      ok = good;
      output = some output;
      error = if good then none else some (codes what ++ exit_text env r.exit_code ++ codes ".");
    }

-- The binary that a command starts, if it is allowed.
unfoldable pub check_command : List Str → List Str → Result (Unit {0})
check_command allowed [] = err missing_binary
check_command allowed ([] ∷ args) = err missing_binary
check_command allowed ((c ∷ s) ∷ args) =
    if contains allowed (c ∷ s) then ok tt else err (command_not_allowed (c ∷ s))

unfoldable pub run_exec_command : Env → List Str → Fields → M BridgeExecutionResult
unfolding array_of_strings check_command cwd_of timeout_of next_effect spawned spawn_fields
run_exec_command env allowed payload = do
  command ← from_result (array_of_strings (get_field payload (codes "command")) (codes "command"))
  _ ← from_result (check_command allowed command)
  let cwd = cwd_of env (get_field payload (codes "cwd"))
  let timeout = timeout_of (get_field payload (codes "timeoutMs"))
  n ← next_effect
  r ← require effect_failed (env.spawn n command cwd timeout)
  pure (
      spawned env "Command exited with " r (
        field (codes "command") (arr (texts command))
          (field (codes "cwd") (text cwd) (spawn_fields env r end))))

-- `basename(cwd) || "workspace"`
unfoldable pub patch_name : Str → Str
patch_name [] = codes "workspace.patch"
patch_name (c ∷ s) = (c ∷ s) ++ codes ".patch"

unfoldable pub read_verify_file : Env → Str → M Fields
unfolding next_effect
read_verify_file env path = do
  n ← next_effect
  content ← require effect_failed (env.file_text n path)
  pure (field (codes "verifyFile") (text path) (field (codes "verifyContent") (text content) end))

-- The file that a successful patch is checked by, if the payload names one.
unfoldable pub verify_fields : Env → Str → Json → Option ℕ → M Fields
unfolding is_zero_exit read_verify_file
verify_fields env cwd (text s) exit =
    if is_zero_exit exit then read_verify_file env (env.resolve_in cwd s) else pure end
verify_fields env cwd _ exit = pure end

unfoldable pub run_apply_patch : Env → Fields → M BridgeExecutionResult
unfolding string_arg cwd_of next_effect patch_name verify_fields spawned spawn_fields
run_apply_patch env payload = do
  patch ← from_result (string_arg (get_field payload (codes "patch")) (codes "patch"))
  let cwd = cwd_of env (get_field payload (codes "cwd"))
  n ← next_effect
  dir ← require effect_failed (env.temp_dir n)
  let path = env.resolve_in dir (patch_name (env.basename cwd))
  n ← next_effect
  _ ← if env.write_file n path patch then pure tt else throw effect_failed
  n ← next_effect
  let command =
      codes "git" ∷ codes "apply" ∷ codes "--recount" ∷ codes "--whitespace=nowarn" ∷ path ∷ []
  r ← require effect_failed (env.spawn n command cwd (codes "10000"))
  verify ← verify_fields env cwd (get_field payload (codes "verifyFile")) r.exit_code
  pure (
      spawned env "Patch apply failed with " r (
        field (codes "cwd") (text cwd)
          (field (codes "patchPath") (text path) (spawn_fields env r verify))))

unfoldable pub run_elevated_cell : Env → List Str → BridgeRequest → M BridgeExecutionResult
unfolding run_exec_command run_apply_patch unsupported
run_elevated_cell env allowed request = elim request.action [
  | exec_command ↦ run_exec_command env allowed request.payload
  | apply_patch ↦ run_apply_patch env request.payload
  | a ↦ pure (unsupported "elevated" a)
]
