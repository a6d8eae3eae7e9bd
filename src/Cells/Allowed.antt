-- ===== src/Cells/Allowed.antt =====
-- Which commands the elevated cell starts.
use tool_flow.Prelude.{
  true, ◌≡◌, refl, ◌∙◌, ap, List, [], ◌∷◌, Str, codes, contains, str_eq, arith, ◌≢◌,
}
use tool_flow.Types.{BridgeRequest, get_field, exec_command, Result, ok, err}
use tool_flow.Env.{Env}
use tool_flow.World.{World, next_effect}
use tool_flow.Cells.{array_of_strings}
use tool_flow.Cells.Elevated.{check_command, run_exec_command, run_elevated_cell}

check_command-allowed :
    (allowed command : List Str)
    → check_command allowed command ≡ ok tt
    → (binary : Str) × (args : List Str) × (command ≡ binary ∷ args)
      × (contains allowed binary ≡ true)
unfolding check_command
check_command-allowed allowed [] h = absurd (cc)
check_command-allowed allowed ([] ∷ args) h = absurd (cc)
check_command-allowed allowed ((c ∷ s) ∷ args) h = (c ∷ s, args, refl, ground arith)

-- If the elevated cell, given an `exec_command`, uses the outside at all, then the payload's
-- command is a list of texts whose first is in the list of allowed commands.
pub run_elevated_cell-allowed :
    (env : Env) (allowed : List Str) (request : BridgeRequest) (w : World)
    → request.action ≡ exec_command
    → (run_elevated_cell env allowed request w).1.effects ≢ w.effects
    → (binary : Str) × (args : List Str) × (array_of_strings
          (get_field request.payload (codes "command"))
          (codes "command")
        ≡ ok (binary ∷ args))
      × (contains allowed binary ≡ true)
unfolding run_elevated_cell run_exec_command next_effect
run_elevated_cell-allowed env allowed request w e moved =
    go (array_of_strings (get_field request.payload (codes "command")) (codes "command")) refl
  where
    checked :
        (command : List Str)
        → array_of_strings (get_field request.payload (codes "command")) (codes "command")
          ≡ ok command
        → (c : Result (Unit {0})) → check_command allowed command ≡ c
        → (binary : Str) × (args : List Str) × (array_of_strings
              (get_field request.payload (codes "command"))
              (codes "command")
            ≡ ok (binary ∷ args))
          × (contains allowed binary ≡ true)
    checked command h (err f) k = absurd (moved (rw (e, h, k) refl))
    checked command h (ok tt) k =
        let (binary, args, s, a) = check_command-allowed allowed command k in
        (binary, args, h ∙ ap ok s, a)

    go :
        (r : Result (List Str))
        → array_of_strings (get_field request.payload (codes "command")) (codes "command") ≡ r
        → (binary : Str) × (args : List Str) × (array_of_strings
              (get_field request.payload (codes "command"))
              (codes "command")
            ≡ ok (binary ∷ args))
          × (contains allowed binary ≡ true)
    go (err f) h = absurd (moved (rw (e, h) refl))
    go (ok command) h = checked command h (check_command allowed command) refl
