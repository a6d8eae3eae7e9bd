-- ===== src/Ledger.antt =====
-- The files of the ledger (packages/runtime/src/ledger): grants, receipts, approvals, manifests and
-- events.
use tool_flow.Prelude.{
  List, codes, contains, if◌then◌else◌, [], ◌∷◌, ◌++◌, Str, Option, none, some, lookup, put, str_eq,
  key2_eq,
}
use tool_flow.Types.{
  consumed, expired, void, GrantRecord, Receipt, ApprovalBinding, RunManifest, missing_file, ok,
}
use tool_flow.Env.{Env}
use tool_flow.World.{Event, M, ◌>>=◌, ◌>>◌, pure, require, read_ledger, change, now_iso}

-- `mkdirSync(path, { recursive: true })`, of the path itself
unfoldable pub with_directory : Str → List Str → List Str
with_directory path made = if contains made path then made else path ∷ made

-- `new LedgerStore(root)`: the other directories are made with the files in them.
unfoldable pub open_store : Env → (root : Str) → M (Unit {0})
unfolding with_directory
open_store env root w =
    (ok tt, record w { directories = with_directory (env.join root (codes "runs")) w.directories })

unfoldable pub write_grant : Str → GrantRecord → M (Unit {0})
write_grant run_id rec =
    change λ l. record l { grants = put l.grants (run_id, rec.grant.unsigned.grant_id) rec }

unfoldable pub read_grant : Str → Str → M GrantRecord
read_grant run_id grant_id = do
  l ← read_ledger
  require missing_file (lookup l.grants (run_id, grant_id))

unfoldable pub consume_grant : Env → Str → Str → Str → M (Unit {0})
unfolding read_grant write_grant now_iso
consume_grant env run_id grant_id receipt_id = do
  rec ← read_grant run_id grant_id
  now ← now_iso env
  write_grant run_id
      (record rec { state = consumed; consumed_at = some now; receipt_id = some receipt_id })

unfoldable pub expire_grant : Str → Str → M (Unit {0})
unfolding read_grant write_grant
expire_grant run_id grant_id = do
  rec ← read_grant run_id grant_id
  write_grant run_id (record rec { state = expired })

unfoldable pub void_grant : Str → Str → M (Unit {0})
unfolding read_grant write_grant
void_grant run_id grant_id = do
  rec ← read_grant run_id grant_id
  write_grant run_id (record rec { state = void })

unfoldable pub write_receipt : Receipt → M (Unit {0})
write_receipt r =
    change λ l. record l { receipts = put l.receipts (r.unsigned.run_id, r.unsigned.receipt_id) r }

-- `none` is a missing or empty id, or a file that is not there.
unfoldable pub try_read_receipt : Str → Option Str → M (Option Receipt)
try_read_receipt run_id none = pure none
try_read_receipt run_id (some []) = pure none
try_read_receipt run_id (some (c ∷ id)) = do
  l ← read_ledger
  pure (lookup l.receipts (run_id, c ∷ id))

unfoldable pub write_approval : ApprovalBinding → M (Unit {0})
write_approval a = change λ l. record l { approvals = put l.approvals (a.run_id, a.step_id) a }

unfoldable pub read_approval : Str → Str → M (Option ApprovalBinding)
read_approval run_id step_id = do l ← read_ledger; pure (lookup l.approvals (run_id, step_id))

-- The manifest object keeps the new `updatedAt`, so the function returns it.
unfoldable pub write_manifest : Env → RunManifest → M RunManifest
unfolding now_iso
write_manifest env m = do
  now ← now_iso env
  let m = record m { updated_at = now }
  change (λ l. record l { manifests = put l.manifests m.run_id m })
  pure m

unfoldable pub read_manifest : Str → M RunManifest
read_manifest run_id = do l ← read_ledger; require missing_file (lookup l.manifests run_id)

unfoldable pub append_event : Env → Str → Event → M (Unit {0})
unfolding now_iso
append_event env run_id e = do
  _ ← now_iso env
  change (λ l. record l { events = l.events ++ (run_id, e) ∷ [] })
