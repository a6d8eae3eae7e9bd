-- ===== src/Env.antt =====
-- What the runtime takes from outside its own code, as one record of functions: SHA-256 over
-- `JSON.stringify`, HMAC-SHA-256, the clock, random tokens, and what the file system and child
-- processes answer. The n-th reading of a source of input is the function's value at n.
use tool_flow.Prelude.{ℕ, Bool, Str, List, Option}
use tool_flow.Types.{Json}

-- What a child process ended with: `none` is an exit by a signal.
pub record SpawnResult : Type 0 where
  pub exit_code : Option ℕ
  pub stdout : Str
  pub stderr : Str

pub record Env : Type 0 where
  -- `sha256(JSON.stringify(value))`
  pub digest : Json → Str
  -- `createHmac("sha256", secret).update(JSON.stringify(value)).digest("hex")`
  pub hmac : Str → Json → Str
  -- `Date.now()`, `randomBytes(..).toString("hex")`
  pub clock : ℕ → ℕ
  pub random : ℕ → Str
  -- `Math.random().toString(16)`
  pub math_random : ℕ → Str
  -- `new Date(ms).toISOString()`
  pub iso : ℕ → Str
  -- `path.resolve` of one and of two parts, `path.basename`, `path.join`, `process.cwd()`
  pub resolve : Str → Str
  pub resolve_in : Str → Str → Str
  pub basename : Str → Str
  pub join : Str → Str → Str
  pub cwd : Str
  -- `store.runPath(run, "artifacts", `${step}.output.json`)`
  pub artifact_path : (run step : Str) → Str
  -- `Number(text) * 1000` of a text that is not empty, if it is finite and not below 0
  pub seconds_as_ms : Str → Option ℕ
  -- the text of a number, and `String` of an array or an object
  pub decimal : ℕ → Str
  pub display : Json → Str
  -- `readFile`, `readdir`, `stat` (a directory, the size), `writeFile` and `mkdtemp`; `none`, and
  -- `false` for a write, is a throw
  pub file_text : ℕ → Str → Option Str
  pub dir_names : ℕ → Str → Option (List Str)
  pub file_stat : ℕ → Str → Option (Bool × ℕ)
  pub write_file : ℕ → Str → Str → Bool
  pub temp_dir : ℕ → Option Str
  -- `spawnCapture(command, args, { cwd, timeoutMs })`
  pub spawn : ℕ → (command : List Str) → (cwd timeout : Str) → Option SpawnResult
  -- the text that `String` makes of a member of `Object.prototype`
  pub inherited_text : Str → Str
