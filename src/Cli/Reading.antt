-- ===== src/Cli/Reading.antt =====
-- Which commands of the command line (packages/runtime/src/cli/toolflow.ts) leave the ledger alone.
use tool_flow.Prelude.{refl, Bool, true, false, List, [], ◌∷◌, Str, Option, none, some}
use tool_flow.Types.{Result, Failure}
use tool_flow.Env.{Env}
use tool_flow.World.{World, M, ◌>>=◌, pure, throw, from_result, require, read_ledger, now_iso}
use tool_flow.Cells.Quiet.{Quiet, Quiet-bind}
use tool_flow.Ledger.{open_store}
use tool_flow.Cli.Document.{Command}
use tool_flow.Cli.{command_of}

-- Code that changes nothing in the ledger, as a record that the rules are applied to.
pub record KeepsLedger {A : Type 0} (m : M A) : Type 0 where
  pub quiet : Quiet m

module _ {A : Type 0} where
  KeepsLedger-pure : (a : A) → KeepsLedger (pure a)
  KeepsLedger-pure a = record { quiet = λ w. refl }

  KeepsLedger-throw : (e : Failure) → KeepsLedger (throw {A = A} e)
  KeepsLedger-throw e = record { quiet = λ w. refl }

  KeepsLedger-from_result : (r : Result A) → KeepsLedger (from_result r)
  KeepsLedger-from_result r = record { quiet = λ w. refl }

  KeepsLedger-require : (e : Failure) (o : Option A) → KeepsLedger (require e o)
  KeepsLedger-require e none = record { quiet = λ w. refl }
  KeepsLedger-require e (some a) = record { quiet = λ w. refl }

  KeepsLedger-bind :
      {B : Type 0} (m : M A) (f : A → M B)
      → KeepsLedger m
      → ((a : A) → KeepsLedger (f a))
      → KeepsLedger (m >>= f)
  KeepsLedger-bind m f p k = record { quiet = Quiet-bind m f p.quiet (λ a. (k a).quiet) }

KeepsLedger-read_ledger : KeepsLedger read_ledger
KeepsLedger-read_ledger = record { quiet = λ w. refl }

KeepsLedger-now_iso : (env : Env) → KeepsLedger (now_iso env)
unfolding now_iso
KeepsLedger-now_iso env = record { quiet = λ w. refl }

KeepsLedger-open_store : (env : Env) (root : Str) → KeepsLedger (open_store env root)
unfolding open_store
KeepsLedger-open_store env root = record { quiet = λ w. refl }

ruleset reading = (
  KeepsLedger-open_store, KeepsLedger-pure, KeepsLedger-throw, KeepsLedger-from_result,
  KeepsLedger-require, KeepsLedger-bind, KeepsLedger-read_ledger, KeepsLedger-now_iso,
)

abbrev pub is_writing : Command → Bool
is_writing Command.run = true
is_writing Command.resume = true
is_writing Command.approve = true
is_writing Command.cancel = true
is_writing Command.recover = true
is_writing _ = false

abbrev pub may_write : Option Command → Bool
may_write none = false
may_write (some command) = is_writing command

-- Does the command line name a command that writes?
abbrev pub asks_to_write : List Str → Bool
asks_to_write [] = false
asks_to_write (name ∷ args) = may_write (command_of name)
