-- ===== src/Cli/Usage.antt =====
-- The command line (packages/runtime/src/cli/toolflow.ts) without an operand that a command needs, and
-- a cancelled run as `status` shows it.
use tool_flow.Prelude.{
  ℕ, ◌≡◌, refl, ◌∙◌, ap, subst, inl, inr, Bool, true, false, List, [], ◌∷◌, Str, codes, lookup,
  str_eq, str_beq, Option, All, none, some, or_else,
}
use tool_flow.Types.{Result, ok, err, RawWorkflow, RunManifest, missing_operand}
use tool_flow.World.{World, M, ◌>>=◌, pure}
use tool_flow.Ledger.{open_store, read_manifest}
use tool_flow.Run.Manifest.{Ctx}
use tool_flow.Run.Operator.{cancel_run}
use tool_flow.Run.Cancelled.{cancel_run-Cancels}
use tool_flow.Run.Reports.{named_run, chosen_run, get_run_status}
use tool_flow.Cli.Document.{Command, Printed, manifest}
use tool_flow.Cli.{
  arg, command_of, carry_out, required, perform, dispatch_command, ambient_ctx, exit_code, main,
}

-- An empty text counts as none.
abbrev pub is_absent : Option Str → Bool
is_absent (some (c ∷ s)) = false
is_absent _ = true

required-absent :
    {B : Type 0} (o : Option Str) (found : Str) (next : Str → M B) {label : Str} (w : World)
    → some found ≡ some label
    → is_absent o ≡ true
    → (required o found >>= next) w ≡ (err (missing_operand label), w)
unfolding required
required-absent none found next w h n = cc
required-absent (some []) found next w h n = cc
required-absent (some (c ∷ s)) found next w h n = absurd (cc)

abbrev outcome : Result Printed × World → (Result Printed × ℕ) × World
unfolding exit_code
outcome r = ((r.0, exit_code r.0), r.1)

-- The commands that need an operand, other than `recover`, and what they call the first one.
abbrev pub needing_operand : List (Str × Str)
needing_operand =
    (codes "validate", codes "workflow path")
    ∷ (codes "dry-run", codes "workflow path")
    ∷ (codes "run", codes "workflow path")
    ∷ (codes "resume", codes "run id")
    ∷ (codes "approve", codes "run id")
    ∷ (codes "cancel", codes "run id")
    ∷ []

-- Given no workflow path or run id, or an empty one, each of `validate`, `dry-run`, `run`, `resume`,
-- `approve` and `cancel` prints an error that names what is missing, ends with exit code 1 and
-- leaves the world as it was; and so does `recover`, except that it has opened the ledger before.
pub main-absent :
    (ctx : Ctx) (documents : Str → Result RawWorkflow) (args : List Str) (w : World)
    → is_absent (arg args 0) ≡ true
    → All
        (λ e. main ctx documents (e.0 ∷ args) w ≡ ((err (missing_operand e.1), 1), w))
        needing_operand
      × (main ctx documents (codes "recover" ∷ args) w ≡ (
        (err (missing_operand (codes "run id")), 1),
        (open_store ctx.env ctx.ambient.ledger_root w).1,
      ))
unfolding main dispatch_command carry_out exit_code command_of perform open_store str_beq
main-absent ctx documents args w n = (
  (
    ends (codes "workflow path") _ w,
    (
      ends (codes "workflow path") _ w,
      (
        ends (codes "workflow path") _ w,
        (ends (codes "run id") _ w, (ends (codes "run id") _ w, (ends (codes "run id") _ w, tt))),
      ),
    ),
  ),
  ends (codes "run id") _ (open_store ctx.env ctx.ambient.ledger_root w).1,
)
  where
    ends :
        (label : Str) (next : Str → M Printed) (v : World)
        → outcome ((required (arg args 0) label >>= next) v) ≡ ((err (missing_operand label), 1), v)
    ends label next v = ap outcome (required-absent (arg args 0) label next v refl n)

prints_result :
    {A : Type 0} (m : M A) (print : A → Printed) (w : World) (a : A)
    → (m w).0 ≡ ok a
    → (m >>= λ b. pure (print b)) w ≡ (ok (print a), (m w).1)
prints_result m print w a e = rw e

perform-status :
    (ctx : Ctx) (documents : Str → Result RawWorkflow) (c : ℕ) (id : Str) (w : World)
    (m : RunManifest)
    → lookup w.ledger.manifests (c ∷ id) ≡ some m
    → perform ctx documents Command.status ((c ∷ id) ∷ []) w
      ≡ (ok (manifest m), (open_store ctx.env ctx.config.ledger_root w).1)
unfolding perform get_run_status open_store chosen_run named_run read_manifest
perform-status ctx documents c id w m h = rw h

cancel_run-stored :
    (ctx : Ctx) (id reason : Str) (w : World) (old : RunManifest)
    → lookup w.ledger.manifests id ≡ some old
    → old.run_id ≡ id
    → (m : RunManifest) × ((cancel_run ctx id reason w).0 ≡ ok m)
      × (lookup (cancel_run ctx id reason w).1.ledger.manifests id ≡ some m)
unfolding open_store
cancel_run-stored ctx id reason w old h k = elim (cancel_run-Cancels ctx id reason w old h) [
  | inl (_, e) ↦ (
    old,
    ap (λ (r : Result RunManifest × World). r.0) e,
    ap (λ (r : Result RunManifest × World). lookup r.1.ledger.manifests id) e ∙ h,
  )
  | inr (_, (m, e, p)) ↦ (
    m,
    e,
    subst (λ x. lookup (cancel_run ctx id reason w).1.ledger.manifests x ≡ some m) (p.same_run ∙ k)
        p.stored,
  )
]

perform-cancel :
    (ctx : Ctx) (documents : Str → Result RawWorkflow) (c : ℕ) (id : Str) (args : List Str)
    (w : World) (m : RunManifest)
    → (cancel_run ctx (c ∷ id) (or_else (arg args 0) (codes "operator_cancelled")) w).0 ≡ ok m
    → perform ctx documents Command.cancel ((c ∷ id) ∷ args) w ≡ (
      ok (manifest m),
      (cancel_run ctx (c ∷ id) (or_else (arg args 0) (codes "operator_cancelled")) w).1,
    )
unfolding perform required
perform-cancel ctx documents c id args w m e =
    prints_result (cancel_run ctx (c ∷ id) (or_else (arg args 0) (codes "operator_cancelled")))
      manifest w m e

-- After a run of the ledger that stands under its own id is cancelled, with a reason or without,
-- whether this changed it or it was over already, `status` prints the manifest that `cancel` has
-- printed, with the same exit code.
pub main-status_cancel :
    (ctx : Ctx) (documents : Str → Result RawWorkflow) (c : ℕ) (id : Str) (args : List Str)
    (w : World) (old : RunManifest)
    → lookup w.ledger.manifests (c ∷ id) ≡ some old
    → old.run_id ≡ c ∷ id
    → (main ctx documents
        (codes "status" ∷ (c ∷ id) ∷ [])
        (main ctx documents (codes "cancel" ∷ (c ∷ id) ∷ args) w).1).0
      ≡ (main ctx documents (codes "cancel" ∷ (c ∷ id) ∷ args) w).0
unfolding main dispatch_command carry_out exit_code command_of str_beq
main-status_cancel ctx documents c id args w old h k =
    let reason = or_else (arg args 0) (codes "operator_cancelled") in
    let (m, e, p) = cancel_run-stored (ambient_ctx ctx) (c ∷ id) reason w old h k in
    let printed = perform-cancel (ambient_ctx ctx) documents c id args w m e in
    let v = (cancel_run (ambient_ctx ctx) (c ∷ id) reason w).1 in
    let shown = perform-status (ambient_ctx ctx) documents c id v m p in rw (printed, shown)
