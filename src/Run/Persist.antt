-- ===== src/Run/Persist.antt =====
-- What `persistManifest` (control-plane/run-service.ts) writes and what it leaves as it was.
use tool_flow.Prelude.{
  ℕ, suc, ◌≡◌, refl, sym, ◌∙◌, Str, some, lookup, put, lookup-put_self, str_eq, arith, subst,
}
use tool_flow.Types.{RunManifest, Result, ok}
use tool_flow.Env.{Env}
use tool_flow.Config.{RuntimeConfig}
use tool_flow.World.{World, Event, M, After, After-bind, ◌>>=◌, ◌>>◌}
use tool_flow.Ledger.{write_manifest, append_event}
use tool_flow.Mirror.{sync_taskflow_mirror, read_mirror_index, build_taskflow_mirror_record}
use tool_flow.Run.Manifest.{Ctx}
use tool_flow.Run.Loop.{persist_manifest}

-- The files of a run other than the manifest, the events and the mirror.
pub record SameFiles (w v : World) : Type 0 where
  pub graphs : v.ledger.graphs ≡ w.ledger.graphs
  pub policies : v.ledger.policies ≡ w.ledger.policies
  pub grants : v.ledger.grants ≡ w.ledger.grants
  pub receipts : v.ledger.receipts ≡ w.ledger.receipts
  pub approvals : v.ledger.approvals ≡ w.ledger.approvals

pub SameFiles-refl : (w : World) → SameFiles w w
SameFiles-refl w = record {
  graphs = refl;
  policies = refl;
  grants = refl;
  receipts = refl;
  approvals = refl;
}

pub SameFiles-trans : {u v w : World} → SameFiles u v → SameFiles v w → SameFiles u w
SameFiles-trans a b = record {
  graphs = b.graphs ∙ a.graphs;
  policies = b.policies ∙ a.policies;
  grants = b.grants ∙ a.grants;
  receipts = b.receipts ∙ a.receipts;
  approvals = b.approvals ∙ a.approvals;
}

-- No failure, and only the mirror, the events and the clock are touched.
pub record SameRun (w v : World) : Type 0 where
  pub files : SameFiles w v
  pub manifests : v.ledger.manifests ≡ w.ledger.manifests

pub append_event-SameRun :
    (env : Env) (run_id : Str) (e : Event) (w : World)
    → ((append_event env run_id e w).0 ≡ ok tt) × SameRun w (append_event env run_id e w).1
unfolding append_event
append_event-SameRun env run_id e w = (
  refl,
  record {
    files = record {
      graphs = refl;
      policies = refl;
      grants = refl;
      receipts = refl;
      approvals = refl;
    };
    manifests = refl;
  },
)

pub sync-SameRun :
    (env : Env) (config : RuntimeConfig) (m : RunManifest) (w : World)
    → ((sync_taskflow_mirror env config m w).0 ≡ ok (build_taskflow_mirror_record m))
      × SameRun w (sync_taskflow_mirror env config m w).1
unfolding sync_taskflow_mirror read_mirror_index append_event
sync-SameRun env config m w = ground arith

-- The manifest as it is written at a time.
abbrev pub stamped : RunManifest → ℕ → RunManifest
stamped m now = record m { updated_at = now }

-- After a manifest is persisted.
pub record Persisted (m m' : RunManifest) (w v : World) : Type 0 where
  pub now : ℕ
  pub stamp : m' ≡ stamped m now
  pub files : SameFiles w v
  pub stored : lookup v.ledger.manifests m.run_id ≡ some m'

-- The outcome of `persistManifest`.
abbrev pub Persists : RunManifest → World → Result RunManifest → World → Type 0
Persists m w r v = (m' : RunManifest) × (r ≡ ok m') × Persisted m m' w v

pub persist_manifest-Persists :
    (ctx : Ctx) (m : RunManifest) (w : World) → After (Persists m w) (persist_manifest ctx m) w
unfolding persist_manifest write_manifest
persist_manifest-Persists ctx m w =
    let now = ctx.env.clock w.ticks in
    let m' = stamped m now in
    let v : World = record w {
      ledger = record w.ledger { manifests = put w.ledger.manifests m.run_id m' };
      ticks = suc w.ticks;
    } in
    After-bind (λ r u. (r ≡ ok (build_taskflow_mirror_record m')) × SameRun v u) (Persists m w)
      (sync_taskflow_mirror ctx.env ctx.config m') _ v (sync-SameRun ctx.env ctx.config m' v)
      (λ a u p. (
        m',
        refl,
        record {
          now = now;
          stamp = refl;
          files = record {
            graphs = p.1.files.graphs;
            policies = p.1.files.policies;
            grants = p.1.files.grants;
            receipts = p.1.files.receipts;
            approvals = p.1.files.approvals;
          };
          stored =
              subst (λ t. lookup t m.run_id ≡ some m') (sym p.1.manifests)
                (lookup-put_self w.ledger.manifests m.run_id m');
        },
      ))
      (λ e u p. absurd (cc))

-- Persisting and then something that may fail, where the manifest is written first.
pub persist-bind :
    {B : Type 0} (ctx : Ctx) (m : RunManifest) (Q : Result B → World → Type 0)
    (f : RunManifest → M B) (w : World)
    → ((m' : RunManifest) (v : World) → Persisted m m' w v → After Q (f m') v)
    → After Q (persist_manifest ctx m >>= f) w
persist-bind ctx m Q f w k =
    After-bind (Persists m w) Q (persist_manifest ctx m) f w (persist_manifest-Persists ctx m w)
      (λ a v p. subst (λ b. After Q (f b) v) (cc) (k p.0 v p.2)) (λ e v p. absurd (cc))

-- So for an event.
pub event-bind :
    {B : Type 0} (env : Env) (run_id : Str) (e : Event) (Q : Result B → World → Type 0) (n : M B)
    (w : World)
    → ((v : World) → SameRun w v → After Q n v)
    → After Q (append_event env run_id e >> n) w
event-bind env run_id e Q n w k =
    After-bind (λ r v. (r ≡ ok tt) × SameRun w v) Q (append_event env run_id e) (λ _. n) w
      (append_event-SameRun env run_id e w) (λ a v p. k v p.1) (λ e v p. absurd (cc))
