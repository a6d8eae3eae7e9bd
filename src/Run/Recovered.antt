-- ===== src/Run/Recovered.antt =====
-- What recovery leaves of the steps of an interrupted run.
use tool_flow.Prelude.{
  [], ◌∷◌, Bool, true, false, ◌≡◌, refl, sym, Str, Option, none, some, key2_eq, str_eq, arith,
  subst, if◌then◌else◌,
}
use tool_flow.Types.{ReplayClass, StepManifest, GrantRecord, Receipt, Result, ok}
use tool_flow.Env.{Env}
use tool_flow.World.{World, M, After, After-bind, ◌>>=◌, pure}
use tool_flow.Ledger.{read_grant, try_read_receipt}
use tool_flow.Run.Manifest.{apply_receipt, step_state_of}
use tool_flow.Run.Recovery.{
  Recovered, reconciled_from_receipt, unchanged, is_settled, clear_step_for_replay, quarantine,
  recover_ungranted, recover_granted, recover_with_grant, recover_interrupted, recover_entry,
}

apply_receipt-settled :
    (r : Receipt) (s : StepManifest) → is_settled (apply_receipt r s).state ≡ true
unfolding apply_receipt step_state_of is_settled
apply_receipt-settled r s = ground arith

-- The new entry of a step that was interrupted.
abbrev Settles : Result Recovered → World → Type 0
Settles r v = (p : Recovered) → r ≡ ok p → is_settled p.0.state ≡ true

recover_granted-Settles :
    (env : Env) (run_id : Str) (c : ReplayClass) (rec : GrantRecord) (s : StepManifest) (w : World)
    → After Settles (recover_granted env run_id c rec s) w
unfolding recover_granted is_settled clear_step_for_replay quarantine
recover_granted-Settles env run_id c rec s w p h = ground arith

Settles-bind :
    {A : Type 0} (n : M A) (f : A → M Recovered) (w : World)
    → ((a : A) (v : World) → After Settles (f a) v)
    → After Settles (n >>= f) w
Settles-bind n f w k =
    After-bind (λ r v. Unit {0}) Settles n f w tt (λ a v u. k a v) (λ e v u p h. absurd (cc))

pure-Settles : (p : Recovered) (w : World) → is_settled p.0.state ≡ true → After Settles (pure p) w
pure-Settles p w e q h =
    let same : p.0 ≡ q.0 = cc in subst (λ (x : StepManifest). is_settled x.state ≡ true) same e

receipt-Settles :
    (s : StepManifest) (o : Option Receipt) (n : M Recovered) (w : World)
    → ((v : World) → After Settles n v)
    → After Settles
        (elim o [ some r ↦ pure (apply_receipt r s, reconciled_from_receipt) | none ↦ n ])
        w
receipt-Settles s none n w k = k w
receipt-Settles s (some r) n w k = pure-Settles _ w (apply_receipt-settled r s)

recover_with_grant-Settles :
    (env : Env) (run_id : Str) (c : ReplayClass) (g : Str) (s : StepManifest) (w : World)
    → After Settles (recover_with_grant env run_id c g s) w
unfolding recover_with_grant
recover_with_grant-Settles env run_id c g s w = Settles-bind (read_grant run_id g) _ w λ rec v.
    Settles-bind (try_read_receipt run_id rec.receipt_id) _ v λ o u.
      receipt-Settles s o (recover_granted env run_id c rec s) u
        λ x. recover_granted-Settles env run_id c rec s x

recover_ungranted-settled :
    (c : ReplayClass) (s : StepManifest) → is_settled (recover_ungranted c s).0.state ≡ true
unfolding recover_ungranted is_settled quarantine
recover_ungranted-settled c s = ground arith

recover_interrupted-Settles :
    (env : Env) (run_id : Str) (c : ReplayClass) (s : StepManifest) (w : World)
    → After Settles (recover_interrupted env run_id c s) w
unfolding recover_interrupted
recover_interrupted-Settles env run_id c s w =
    Settles-bind (try_read_receipt run_id s.receipt_id) _ w
      λ o u. receipt-Settles s o (by_grant s.grant_id) u (by_grant-Settles s.grant_id)
  where
    by_grant : Option Str → M Recovered
    by_grant none = pure (recover_ungranted c s)
    by_grant (some []) = pure (recover_ungranted c s)
    by_grant (some (d ∷ id)) = recover_with_grant env run_id c (d ∷ id) s

    by_grant-Settles : (o : Option Str) (v : World) → After Settles (by_grant o) v
    by_grant-Settles none v = pure-Settles _ v (recover_ungranted-settled c s)
    by_grant-Settles (some []) v = pure-Settles _ v (recover_ungranted-settled c s)
    by_grant-Settles (some (d ∷ id)) v = recover_with_grant-Settles env run_id c (d ∷ id) s v

-- A settled entry stays, and any other becomes settled.
abbrev pub Recovers : StepManifest → Result Recovered → World → Type 0
Recovers s r v =
    (p : Recovered)
    → r ≡ ok p
    → (is_settled p.0.state ≡ true) × (is_settled s.state ≡ true → p.0 ≡ s)

pub recover_entry-Recovers :
    (env : Env) (run_id : Str) (c : ReplayClass) (s : StepManifest) (w : World)
    → After (Recovers s) (recover_entry env run_id c s) w
unfolding recover_entry
recover_entry-Recovers env run_id c s w = by_test (is_settled s.state) refl
  where
    by_test :
        (b : Bool)
        → is_settled s.state ≡ b
        → After
            (Recovers s)
            (if b then pure (s, unchanged) else recover_interrupted env run_id c s)
            w
    by_test true e p h =
        let same : s ≡ p.0 = cc in
        (subst (λ (x : StepManifest). is_settled x.state ≡ true) same e, λ x. sym same)
    by_test false e p h = (recover_interrupted-Settles env run_id c s w p h, λ x. absurd (cc))
