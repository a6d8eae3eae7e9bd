-- ===== src/Plugin/Agreement.antt =====
-- The tools of the plugin (packages/plugin/src/entry.ts) beside the commands of the command line.
use tool_flow.Prelude.{
  ℕ, ◌≡◌, refl, subst, List, [], ◌∷◌, Str, str_beq, str_eq, codes, Option, none, some,
}
use tool_flow.Types.{RawWorkflow, Result, ok, err}
use tool_flow.World.{World, M, ◌>>=◌, and_then, pure}
use tool_flow.Run.Manifest.{Ctx}
use tool_flow.Cli.Document.{Command, Printed}
use tool_flow.Cli.{command_of, carry_out, required, perform, dispatch_command, ambient_ctx, main}
use tool_flow.Plugin.{
  PluginPaths, ToolCall, submit, dry_run_of, status, inspect, receipts_of, cancel, templates,
  ToolResult, text_result, error_result, call_client, given_on_opening, caught, execute_tool,
}

abbrev if_given : Option Str → List Str
if_given none = []
if_given (some s) = s ∷ []

-- The command line that asks for the same, where a text that must be given is not empty.
abbrev pub command_line : ToolCall → Option (List Str)
command_line (submit (some (c ∷ path))) = some (codes "run" ∷ (c ∷ path) ∷ [])
command_line (dry_run_of (some (c ∷ path))) = some (codes "dry-run" ∷ (c ∷ path) ∷ [])
command_line (status id) = some (codes "status" ∷ if_given id)
command_line (inspect id) = some (codes "inspect" ∷ if_given id)
command_line (receipts_of id) = some (codes "receipts" ∷ if_given id)
command_line (cancel (some (c ∷ id)) reason) = some (codes "cancel" ∷ (c ∷ id) ∷ if_given reason)
command_line _ = none

abbrev pub shown : Result Printed → ToolResult
shown (ok p) = text_result p
shown (err e) = error_result e

abbrev answer : Result ToolResult × World → ToolResult × World
answer (r, w) = (caught r, w)

abbrev print : Result Printed × World → ToolResult × World
print (r, w) = (shown r, w)

-- A tool and a command that do the same in every world.
record Same (tool : M ToolResult) (command : M Printed) : Type 0 where
  at : (w : World) → answer (tool w) ≡ print (command w)

Same-pure : (p : Printed) → Same (pure (text_result p)) (pure p)
unfolding caught
Same-pure p = record { at = λ w. refl }

Same-bind :
    {A : Type 0} (m : M A) (f : A → M ToolResult) (g : A → M Printed)
    → ((a : A) → Same (f a) (g a))
    → Same (m >>= f) (m >>= g)
unfolding caught
Same-bind {A} m f g k = record { at = λ w. go (m w).0 (m w).1 }
  where
    go : (r : Result A) (v : World) → answer (and_then r f v) ≡ print (and_then r g v)
    go (ok a) v = (k a).at v
    go (err e) v = refl

ruleset same_rules = (Same-pure, Same-bind)

module _ (ctx : Ctx) (paths : PluginPaths) (documents : Str → Result RawWorkflow) where
  submit-Same :
      (c : ℕ) (path : Str)
      → Same
          (call_client ctx paths documents (submit (some (c ∷ path))))
          (perform ctx documents Command.run ((c ∷ path) ∷ []))
  unfolding call_client given_on_opening perform required
  submit-Same c path = search same_rules

  dry_run-Same :
      (c : ℕ) (path : Str)
      → Same
          (call_client ctx paths documents (dry_run_of (some (c ∷ path))))
          (perform ctx documents Command.dry_run ((c ∷ path) ∷ []))
  unfolding call_client given_on_opening perform required
  dry_run-Same c path = search same_rules

  status-Same :
      (id : Option Str)
      → Same
          (call_client ctx paths documents (status id))
          (perform ctx documents Command.status (if_given id))
  unfolding call_client given_on_opening perform required
  status-Same none = search same_rules
  status-Same (some s) = search same_rules

  inspect-Same :
      (id : Option Str)
      → Same
          (call_client ctx paths documents (inspect id))
          (perform ctx documents Command.inspect (if_given id))
  unfolding call_client given_on_opening perform required
  inspect-Same none = search same_rules
  inspect-Same (some s) = search same_rules

  receipts-Same :
      (id : Option Str)
      → Same
          (call_client ctx paths documents (receipts_of id))
          (perform ctx documents Command.receipts (if_given id))
  unfolding call_client given_on_opening perform required
  receipts-Same none = search same_rules
  receipts-Same (some s) = search same_rules

  cancel-Same :
      (c : ℕ) (id : Str) (reason : Option Str)
      → Same
          (call_client ctx paths documents (cancel (some (c ∷ id)) reason))
          (perform ctx documents Command.cancel ((c ∷ id) ∷ if_given reason))
  unfolding call_client given_on_opening perform required
  cancel-Same c id none = search same_rules
  cancel-Same c id (some s) = search same_rules

-- What is stated of each call that has a command line.
abbrev Agrees :
    Ctx → PluginPaths → (Str → Result RawWorkflow) → ToolCall → World → Option (List Str) → Type 0
Agrees ctx paths documents call w none = Unit
Agrees ctx paths documents call w (some argv) =
    execute_tool (ambient_ctx ctx) paths documents call w
    ≡ (shown (main ctx documents argv w).0.0, (main ctx documents argv w).1)

execute_tool-Agrees :
    (ctx : Ctx) (paths : PluginPaths) (documents : Str → Result RawWorkflow) (call : ToolCall)
    (w : World)
    → Agrees ctx paths documents call w (command_line call)
unfolding execute_tool main dispatch_command carry_out command_of str_beq
execute_tool-Agrees ctx paths documents (submit (some (c ∷ path))) w =
    (submit-Same (ambient_ctx ctx) paths documents c path).at w
execute_tool-Agrees ctx paths documents (dry_run_of (some (c ∷ path))) w =
    (dry_run-Same (ambient_ctx ctx) paths documents c path).at w
execute_tool-Agrees ctx paths documents (status none) w =
    (status-Same (ambient_ctx ctx) paths documents none).at w
execute_tool-Agrees ctx paths documents (status (some id)) w =
    (status-Same (ambient_ctx ctx) paths documents (some id)).at w
execute_tool-Agrees ctx paths documents (inspect id) w =
    (inspect-Same (ambient_ctx ctx) paths documents id).at w
execute_tool-Agrees ctx paths documents (receipts_of id) w =
    (receipts-Same (ambient_ctx ctx) paths documents id).at w
execute_tool-Agrees ctx paths documents (cancel (some (c ∷ id)) reason) w =
    (cancel-Same (ambient_ctx ctx) paths documents c id reason).at w
execute_tool-Agrees ctx paths documents (submit none) w = tt
execute_tool-Agrees ctx paths documents (submit (some [])) w = tt
execute_tool-Agrees ctx paths documents (dry_run_of none) w = tt
execute_tool-Agrees ctx paths documents (dry_run_of (some [])) w = tt
execute_tool-Agrees ctx paths documents (cancel none reason) w = tt
execute_tool-Agrees ctx paths documents (cancel (some []) reason) w = tt
execute_tool-Agrees ctx paths documents templates w = tt

-- In a setting whose configuration is that of the environment, a tool answers what the command line
-- that asks for the same prints, as a text or as an error, and leaves the world that it leaves.
pub execute_tool-main :
    (ctx : Ctx) (paths : PluginPaths) (documents : Str → Result RawWorkflow) (call : ToolCall)
    (argv : List Str) (w : World)
    → command_line call ≡ some argv
    → execute_tool (ambient_ctx ctx) paths documents call w
      ≡ (shown (main ctx documents argv w).0.0, (main ctx documents argv w).1)
execute_tool-main ctx paths documents call argv w h =
    subst (Agrees ctx paths documents call w) h (execute_tool-Agrees ctx paths documents call w)
