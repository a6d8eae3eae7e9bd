-- ===== src/Run/Closed.antt =====
-- The grants of the steps that recovery (control-plane/recovery-service.ts) puts back to `pending`.
use tool_flow.Prelude.{
  [], ◌∷◌, Bool, true, false, ◌≡◌, ◌≢◌, refl, sym, ◌∙◌, Str, Option, none, some, lookup,
  lookup-put_self, key2_eq, arith, subst, if◌then◌else◌, Bool-cases, inl, inr, Option-cases, suc,
}
use tool_flow.Types.{
  StepState, GrantState, ReplayClass, StepManifest, GrantRecord, Receipt, Result, ok, err,
  missing_file, Failure,
}
use tool_flow.Env.{Env}
use tool_flow.World.{World, M, After, After-bind, ◌>>=◌, ◌>>◌, pure, now_iso}
use tool_flow.Ledger.{read_grant, write_grant, expire_grant, void_grant, try_read_receipt}
use tool_flow.Bridge.{is_expired}
use tool_flow.Bridge.Outcome.{IsKeyed}
use tool_flow.Run.Manifest.{apply_receipt, step_state_of}
use tool_flow.Run.Recovery.{
  Recovered, requeued, quarantined, reconciled_from_receipt, unchanged, is_settled, needs_review,
  clear_step_for_replay, quarantine, recover_ungranted, close_grant, recover_granted,
  recover_with_grant, recover_interrupted, recover_entry,
}

-- The grant's record is there, and the grant cannot be used.
abbrev pub IsUnusable : Str → Str → World → Type 0
IsUnusable run_id g w =
    (rec : GrantRecord) × (lookup w.ledger.grants (run_id, g) ≡ some rec)
    × (rec.state ≢ GrantState.issued)

expire_grant-IsUnusable :
    (run_id : Str) (rec : GrantRecord) (w : World)
    → lookup w.ledger.grants (run_id, rec.grant.unsigned.grant_id) ≡ some rec
    → IsUnusable run_id rec.grant.unsigned.grant_id
        (expire_grant run_id rec.grant.unsigned.grant_id w).1
unfolding expire_grant read_grant write_grant
expire_grant-IsUnusable run_id rec w h = rw h (
  record rec { state = GrantState.expired },
  lookup-put_self w.ledger.grants _ _,
  λ e. absurd (cc),
)

void_grant-IsUnusable :
    (run_id : Str) (rec : GrantRecord) (w : World)
    → lookup w.ledger.grants (run_id, rec.grant.unsigned.grant_id) ≡ some rec
    → IsUnusable run_id rec.grant.unsigned.grant_id
        (void_grant run_id rec.grant.unsigned.grant_id w).1
unfolding void_grant read_grant write_grant
void_grant-IsUnusable run_id rec w h =
    rw h (
      record rec { state = GrantState.void },
      lookup-put_self w.ledger.grants _ _,
      λ e. absurd (cc),
    )

close_grant-IsUnusable :
    (env : Env) (run_id : Str) (rec : GrantRecord) (w : World)
    → lookup w.ledger.grants (run_id, rec.grant.unsigned.grant_id) ≡ some rec
    → IsUnusable run_id rec.grant.unsigned.grant_id (close_grant env run_id rec w).1
unfolding close_grant now_iso
close_grant-IsUnusable env run_id rec w h =
    elim (Bool-cases (is_expired rec.grant.unsigned.expires_at (env.clock w.ticks))) [
      | inl e ↦ rw e (expire_grant-IsUnusable run_id rec (record w { ticks = suc w.ticks }) h)
      | inr e ↦ rw e (void_grant-IsUnusable run_id rec (record w { ticks = suc w.ticks }) h)
    ]

-- What is shown of the recovery of an entry with the grant `g`.
abbrev Closes : Str → Str → Result Recovered → World → Type 0
Closes run_id g r v =
    (p : Recovered) → r ≡ ok p → p.0.state ≡ StepState.pending → IsUnusable run_id g v

recover_granted-Closes :
    (env : Env) (run_id : Str) (c : ReplayClass) (rec : GrantRecord) (s : StepManifest) (w : World)
    → lookup w.ledger.grants (run_id, rec.grant.unsigned.grant_id) ≡ some rec
    → After (Closes run_id rec.grant.unsigned.grant_id) (recover_granted env run_id c rec s) w
unfolding recover_granted
recover_granted-Closes env run_id c rec s w h = go rec.state refl
  where
    g : Str
    g = rec.grant.unsigned.grant_id

    unusable :
        (t : GrantState)
        → rec.state ≡ t
        → t ≢ GrantState.issued
        → IsUnusable run_id rec.grant.unsigned.grant_id w
    unusable t e n = (rec, h, λ q. n (sym e ∙ q))

    go :
        (t : GrantState)
        → rec.state ≡ t
        → After
            (Closes run_id rec.grant.unsigned.grant_id)
            (elim t [
              | GrantState.issued ↦
                  close_grant env run_id rec >> pure (clear_step_for_replay s, requeued)
              | GrantState.consumed ↦ pure (
                  if needs_review c
                  then (quarantine s, quarantined)
                  else (clear_step_for_replay s, requeued))
              | GrantState.expired ↦ pure (clear_step_for_replay s, requeued)
              | GrantState.void ↦ pure (clear_step_for_replay s, requeued)
            ])
            w
    go GrantState.issued e =
        After-bind (λ r v. IsUnusable run_id rec.grant.unsigned.grant_id v)
          (Closes run_id rec.grant.unsigned.grant_id) (close_grant env run_id rec)
          (λ _. pure (clear_step_for_replay s, requeued)) w
          (close_grant-IsUnusable env run_id rec w h) (λ a v u p q x. u) (λ f v u p q x. u)
    go GrantState.consumed e = λ p q x. unusable GrantState.consumed e (λ y. absurd (cc))
    go GrantState.expired e = λ p q x. unusable GrantState.expired e (λ y. absurd (cc))
    go GrantState.void e = λ p q x. unusable GrantState.void e (λ y. absurd (cc))

-- A receipt settles the step.
receipt-Closes :
    (run_id g : Str) (s : StepManifest) (o : Option Receipt) (n : M Recovered) (w : World)
    → After (Closes run_id g) n w
    → After
        (Closes run_id g)
        (elim o [ some r ↦ pure (apply_receipt r s, reconciled_from_receipt) | none ↦ n ])
        w
unfolding apply_receipt step_state_of
receipt-Closes run_id g s none n w k = k
receipt-Closes run_id g s (some r) n w k = λ p q x. absurd (ground arith)

try_read_receipt-world :
    (run_id : Str) (o : Option Str) (w : World) → (try_read_receipt run_id o w).1 ≡ w
unfolding try_read_receipt
try_read_receipt-world run_id o w = ground arith

-- A read leaves the world as it is.
read_receipt-bind :
    {B : Type 0} (run_id : Str) (o : Option Str) (Q : Result B → World → Type 0)
    (f : Option Receipt → M B) (w : World)
    → ((a : Option Receipt) → After Q (f a) w)
    → After Q (try_read_receipt run_id o >>= f) w
unfolding try_read_receipt
read_receipt-bind run_id none Q f w k = k none
read_receipt-bind run_id (some []) Q f w k = k none
read_receipt-bind run_id (some (c ∷ id)) Q f w k = k _

read_grant-bind :
    {B : Type 0} (run_id g : Str) (Q : Result B → World → Type 0) (f : GrantRecord → M B)
    (w : World)
    → ((rec : GrantRecord) → lookup w.ledger.grants (run_id, g) ≡ some rec → After Q (f rec) w)
    → ((e : Failure) → Q (err e) w)
    → After Q (read_grant run_id g >>= f) w
unfolding read_grant
read_grant-bind run_id g Q f w k t = elim (Option-cases (lookup w.ledger.grants (run_id, g))) [
  | inl n ↦ rw n (t missing_file)
  | inr (rec, h) ↦ rw h (k rec h)
]

recover_with_grant-Closes :
    (env : Env) (run_id : Str) (c : ReplayClass) (g : Str) (s : StepManifest) (w : World)
    → IsKeyed w.ledger
    → After (Closes run_id g) (recover_with_grant env run_id c g s) w
unfolding recover_with_grant
recover_with_grant-Closes env run_id c g s w keyed =
    read_grant-bind run_id g (Closes run_id g) _ w
      (λ rec h. read_receipt-bind run_id rec.receipt_id (Closes run_id g) _ w λ o.
        receipt-Closes run_id g s o (recover_granted env run_id c rec s) w
          (granted rec h (keyed run_id g rec h)))
      (λ e p h. absurd (cc))
  where
    granted :
        (rec : GrantRecord)
        → lookup w.ledger.grants (run_id, g) ≡ some rec
        → rec.grant.unsigned.grant_id ≡ g
        → After (Closes run_id g) (recover_granted env run_id c rec s) w
    granted rec h e =
        subst (λ x. After (Closes run_id x) (recover_granted env run_id c rec s) w) e
          (recover_granted-Closes env run_id c rec s w
            (subst (λ x. lookup w.ledger.grants (run_id, x) ≡ some rec) (sym e) h))

recover_interrupted-Closes :
    (env : Env) (run_id : Str) (c : ReplayClass) (s : StepManifest) (g : Str) (w : World)
    → IsKeyed w.ledger
    → s.grant_id ≡ some g
    → g ≢ []
    → After (Closes run_id g) (recover_interrupted env run_id c s) w
unfolding recover_interrupted
recover_interrupted-Closes env run_id c s g w keyed has filled =
    read_receipt-bind run_id s.receipt_id (Closes run_id g) _ w
      λ o. receipt-Closes run_id g s o (by_grant s.grant_id) w (by_grant-Closes s.grant_id has)
  where
    by_grant : Option Str → M Recovered
    by_grant none = pure (recover_ungranted c s)
    by_grant (some []) = pure (recover_ungranted c s)
    by_grant (some (d ∷ id)) = recover_with_grant env run_id c (d ∷ id) s

    by_grant-Closes : (o : Option Str) → o ≡ some g → After (Closes run_id g) (by_grant o) w
    by_grant-Closes none e = absurd (cc)
    by_grant-Closes (some []) e = absurd (filled (cc))
    by_grant-Closes (some (d ∷ id)) e =
        let same : d ∷ id ≡ g = cc in
        subst (λ x. After (Closes run_id x) (recover_with_grant env run_id c (d ∷ id) s) w) same
          (recover_with_grant-Closes env run_id c (d ∷ id) s w keyed)

-- If recovery puts an interrupted step back to `pending`, in a ledger whose grant records stand
-- under their own ids, then the grant that the step had, if its id is not empty, is in the
-- ledger and cannot be used any more: it is not in state `issued`.
pub recover_entry-Closes :
    (env : Env) (run_id : Str) (c : ReplayClass) (s : StepManifest) (g : Str) (w : World)
    (p : Recovered)
    → IsKeyed w.ledger
    → is_settled s.state ≡ false
    → s.grant_id ≡ some g
    → g ≢ []
    → (recover_entry env run_id c s w).0 ≡ ok p
    → p.0.state ≡ StepState.pending
    → IsUnusable run_id g (recover_entry env run_id c s w).1
unfolding recover_entry
recover_entry-Closes env run_id c s g w p keyed open_step has filled =
    by_test (is_settled s.state) open_step p
  where
    by_test :
        (b : Bool)
        → b ≡ false
        → After
            (Closes run_id g)
            (if b then pure (s, unchanged) else recover_interrupted env run_id c s)
            w
    by_test true e = absurd (cc)
    by_test false e = recover_interrupted-Closes env run_id c s g w keyed has filled
