-- ===== src/Bridge/Outcome.antt =====
-- What a dispatched step leaves in the ledger.
use tool_flow.Prelude.{
  ℕ, suc, ◌≡◌, refl, sym, ◌∙◌, ap, List, Str, Option, some, str_eq, lookup, put, lookup-put_self,
  key2_eq, Key2, subst,
}
use tool_flow.Types.{
  CellId, read, research, session, elevated, consumed, PolicyArtifact, GrantRecord, Receipt, Fields,
  BridgeRequest, BridgeExecutionResult, Result, ok,
}
use tool_flow.Env.{Env}
use tool_flow.Crypto.{RuntimeKey}
use tool_flow.World.{World, Ledger, After, After-bind, ◌>>=◌, now_iso}
use tool_flow.Ledger.{write_receipt, consume_grant}
use tool_flow.Cells.Quiet.{
  Quiet, run_read_cell-Quiet, run_research_cell-Quiet, run_session_cell-Quiet,
  run_elevated_cell-Quiet,
}
use tool_flow.Bridge.{
  Handler, Consume, consume_grant_file, verify_grant_for_request, record_outcome,
  execute_same_process, receipt_at, emit_receipt, handler_of,
}
use tool_flow.Bridge.Verify.{IsValid, verify_grant_for_request_iff, verify-ledger}

pub handler_of-Quiet :
    (env : Env) (allowed : List Str) (c : CellId) (request : BridgeRequest)
    → Quiet (handler_of env allowed c request)
unfolding handler_of
handler_of-Quiet env allowed read request = run_read_cell-Quiet env request
handler_of-Quiet env allowed research request = run_research_cell-Quiet env request
handler_of-Quiet env allowed session request = run_session_cell-Quiet env request
handler_of-Quiet env allowed elevated request = run_elevated_cell-Quiet env allowed request

-- A grant record is stored under the id of its grant.
abbrev pub IsKeyed : Ledger → Type 0
IsKeyed l =
    (run id : Str) (rec : GrantRecord)
    → lookup l.grants (run, id) ≡ some rec
    → rec.grant.unsigned.grant_id ≡ id

-- The record of a grant that is used up, stored under the id that it is asked for by.
abbrev consumed_at_time : ℕ → Str → GrantRecord → GrantRecord
consumed_at_time now receipt_id rec = record rec {
  state = consumed;
  consumed_at = some now;
  receipt_id = some receipt_id;
}

-- Code that uses up a grant whose record names its own id.
abbrev pub UsesUp : Env → Consume → Type 0
UsesUp env consume =
    (w : World) (run id receipt_id : Str) (rec : GrantRecord)
    → lookup w.ledger.grants (run, id) ≡ some rec
    → rec.grant.unsigned.grant_id ≡ id
    → consume run id receipt_id w ≡ (
      ok tt,
      record w {
        ledger = record w.ledger {
          grants =
              put w.ledger.grants (run, id) (consumed_at_time (env.clock w.ticks) receipt_id rec);
        };
        ticks = suc w.ticks;
      },
    )

pub consume_grant-UsesUp : (env : Env) → UsesUp env (consume_grant env)
unfolding consume_grant
consume_grant-UsesUp env w run id receipt_id rec f same = rw (f, same)

pub consume_grant_file-UsesUp : (env : Env) → UsesUp env (consume_grant_file env)
unfolding consume_grant_file
consume_grant_file-UsesUp env w run id receipt_id rec f same = rw f

-- After the outcome is recorded the grant is used up, for the receipt that is stored.
pub record Recorded (request : BridgeRequest) (receipt : Receipt) (w v : World) : Type 0 where
  pub used : GrantRecord
  pub found :
      lookup v.ledger.grants (request.grant.unsigned.run_id, request.grant.unsigned.grant_id)
      ≡ some used
  pub is_used : used.state ≡ consumed
  pub used_for : used.receipt_id ≡ some receipt.unsigned.receipt_id
  pub kept :
      lookup v.ledger.receipts (request.grant.unsigned.run_id, receipt.unsigned.receipt_id)
      ≡ some receipt
  pub same_run : receipt.unsigned.run_id ≡ request.grant.unsigned.run_id
  pub same_step : receipt.unsigned.step_id ≡ request.grant.unsigned.step_id
  pub same_grant : receipt.unsigned.grant_id ≡ request.grant.unsigned.grant_id
  pub approvals : v.ledger.approvals ≡ w.ledger.approvals
  pub manifests : v.ledger.manifests ≡ w.ledger.manifests

abbrev pub grant_key : BridgeRequest → Key2
grant_key request = (request.grant.unsigned.run_id, request.grant.unsigned.grant_id)

module _ (env : Env) (key : RuntimeKey) (request : BridgeRequest) (t : ℕ)
    (result : BridgeExecutionResult) (consume : Consume) (uses : UsesUp env consume) where
  abbrev receipt_from : World → Receipt
  receipt_from w = receipt_at env request result key t (env.random w.draws) (env.clock w.ticks)

  receipt_from-ids :
      (w : World)
      → ((receipt_from w).unsigned.run_id ≡ request.grant.unsigned.run_id)
        × ((receipt_from w).unsigned.step_id ≡ request.grant.unsigned.step_id)
        × ((receipt_from w).unsigned.grant_id ≡ request.grant.unsigned.grant_id)
  unfolding receipt_at
  receipt_from-ids w = (refl, refl, refl)

  used_record : World → GrantRecord → GrantRecord
  used_record w rec = record rec {
    state = consumed;
    consumed_at = some (env.clock (suc w.ticks));
    receipt_id = some (receipt_from w).unsigned.receipt_id;
  }

  record_outcome-eq :
      (w : World) (rec : GrantRecord)
      → lookup w.ledger.grants (grant_key request) ≡ some rec
      → rec.grant.unsigned.grant_id ≡ request.grant.unsigned.grant_id
      → record_outcome env consume key request t result w ≡ (
        ok (receipt_from w, result.output),
        record w {
          ledger = record w.ledger {
            receipts =
                put w.ledger.receipts
                  (request.grant.unsigned.run_id, (receipt_from w).unsigned.receipt_id)
                  (receipt_from w);
            grants = put w.ledger.grants (grant_key request) (used_record w rec);
          };
          ticks = suc (suc w.ticks);
          draws = suc w.draws;
        },
      )
  unfolding record_outcome emit_receipt write_receipt receipt_at used_record
  record_outcome-eq w rec f same = rw (
      uses (stored w) request.grant.unsigned.run_id request.grant.unsigned.grant_id
        (receipt_from w).unsigned.receipt_id rec f same)
    where
      stored : World → World
      stored w = record w {
        ledger = record w.ledger {
          receipts =
              put w.ledger.receipts
                (request.grant.unsigned.run_id, (receipt_from w).unsigned.receipt_id)
                (receipt_from w);
        };
        ticks = suc w.ticks;
        draws = suc w.draws;
      }

  pub record_outcome-Recorded :
      (w v : World) (rec : GrantRecord)
      → lookup v.ledger.grants (grant_key request) ≡ some rec
      → rec.grant.unsigned.grant_id ≡ request.grant.unsigned.grant_id
      → v.ledger ≡ w.ledger
      → (p : Receipt × Option Fields) → (record_outcome env consume key request t result v).0 ≡ ok p
      → Recorded request p.0 w (record_outcome env consume key request t result v).1
        × (p.1 ≡ result.output)
  unfolding used_record
  record_outcome-Recorded w v rec f same l p h =
      let e = record_outcome-eq v rec f same in
      let q : p ≡ (receipt_from v, result.output) = cc in
      let ids = receipt_from-ids v in
      rw (e, q)
        (
          record {
            used = used_record v rec;
            found = lookup-put_self v.ledger.grants (grant_key request) (used_record v rec);
            is_used = refl;
            used_for = refl;
            kept =
                lookup-put_self v.ledger.receipts
                  (request.grant.unsigned.run_id, (receipt_from v).unsigned.receipt_id)
                  (receipt_from v);
            same_run = ids.0;
            same_step = ids.1;
            same_grant = ids.2;
            approvals = ap (λ m. m.approvals) l;
            manifests = ap (λ m. m.manifests) l;
          },
          refl,
        )

abbrev pub tick : World → World
tick w = record w { ticks = suc w.ticks }

module _ (env : Env) (handler : Handler) (policy : PolicyArtifact) (key : RuntimeKey)
    (request : BridgeRequest) (quiet : Quiet (handler request)) (w : World)
    (keyed : IsKeyed w.ledger) where
  -- What a request that was carried out has met, and what it leaves.
  abbrev pub Settled : Result (Receipt × Option Fields) → World → Type 0
  Settled r v =
      (p : Receipt × Option Fields)
      → r ≡ ok p
      → IsValid env policy key request (tick w) × Recorded request p.0 w v

  abbrev pub Checked : Result (Unit {0}) → World → Type 0
  Checked r v = (r ≡ ok tt → IsValid env policy key request (tick w)) × (v.ledger ≡ w.ledger)

  pub verify-Checked : After Checked (verify_grant_for_request env policy key request) (tick w)
  verify-Checked = (
    (verify_grant_for_request_iff env policy key request (tick w)).0,
    verify-ledger env policy key request (tick w),
  )

  -- From the handler on.
  pub handle-Settled :
      (consume : Consume)
      → UsesUp env consume
      → (t : ℕ) (v : World) → IsValid env policy key request (tick w)
      → v.ledger ≡ w.ledger
      → After Settled (handler request >>= record_outcome env consume key request t) v
  handle-Settled consume uses t v i l =
      After-bind (λ r u. u.ledger ≡ w.ledger) Settled (handler request)
        (record_outcome env consume key request t) v (quiet v ∙ l)
        (λ result u m p h. (
          i,
          (record_outcome-Recorded env key request t result consume uses w u i.stored
              (subst (λ k. lookup k.grants (grant_key request) ≡ some i.stored) (sym m) i.found)
              (keyed request.grant.unsigned.run_id request.grant.unsigned.grant_id i.stored i.found)
              m p h).0,
        ))
        (λ e u m p h. absurd (cc))

  pub same_process-Settled : After Settled (execute_same_process env handler policy key request) w
  unfolding execute_same_process now_iso
  same_process-Settled =
      After-bind Checked Settled (verify_grant_for_request env policy key request) _ (tick w)
        verify-Checked
        (λ u v c.
          handle-Settled (consume_grant env) (consume_grant-UsesUp env) (env.clock w.ticks) v
            (c.0 refl) c.1)
        (λ e v c p h. absurd (cc))
