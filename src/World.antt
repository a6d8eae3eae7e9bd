-- ===== src/World.antt =====
-- The state that the runtime reads and writes, and the code that does so: every file of the ledger
-- (packages/runtime/src/ledger), the mirror and the controller under its key, and how often the clock, the
-- random source and the outside were used, and the directories that opening a ledger has made. A file holds the value that was written to it.
mod Documents
mod Controllers
pub use Documents.*
pub use Controllers.*
use tool_flow.Prelude.{ℕ, suc, List, Str, Option, none, some, Table, Key2}
use tool_flow.Types.{
  RunState, StepState, ReceiptStatus, PreflightDecision, WorkflowSource, CompiledGraph, ProofBundle,
  PolicyArtifact, RunManifest, GrantRecord, Receipt, ApprovalBinding, Fields, Result, ok, err,
  Failure,
}
use tool_flow.Env.{Env}

-- The lines of `events.jsonl`, without their times.
pub data Event : Type 0 where
  run_prepared : PreflightDecision → Event
  approval_required : (step payload_hash policy_hash : Str) → Event
  step_receipted : (step receipt : Str) → ReceiptStatus → Event
  run_completed : RunState → Event
  run_recovered : (previous next : RunState) → ℕ → Event
  run_approved : (step by : Str) → Event
  run_cancelled : Str → Event
  mirror_synced : MirroredTaskflowState → Event

-- Files by run, or by run and step, grant or receipt; the mirror's by root and run;
-- the controller's flows by root and flow.
pub record Ledger : Type 0 where
  pub workflows : Table Str WorkflowSource
  pub graphs : Table Str CompiledGraph
  pub proofs : Table Str ProofBundle
  pub policies : Table Str PolicyArtifact
  pub manifests : Table Str RunManifest
  pub grants : Table Key2 GrantRecord
  pub receipts : Table Key2 Receipt
  pub approvals : Table Key2 ApprovalBinding
  pub artifacts : Table Key2 StepOutput
  pub events : List (Str × Event)
  pub mirrors : Table Key2 TaskflowMirrorRecord
  pub mirror_indexes : Table Str TaskflowMirrorIndex
  pub flows : Table Key2 ControllerFlowRecord
  pub flow_indexes : Table Str ControllerIndex

pub record World : Type 0 where
  pub ledger : Ledger
  pub directories : List Str
  pub ticks : ℕ
  pub draws : ℕ
  pub effects : ℕ

-- Code that uses the world and may throw; what it wrote before the throw stays.
abbrev pub M : Type 0 → Type 0
M A = World → Result A × World

abbrev pub and_then : {A B : Type 0} → Result A → (A → M B) → M B
and_then (ok a) f w = f a w
and_then (err e) f w = (err e, w)

infixl 5 ◌>>=◌ ◌>>◌
abbrev pub ◌>>=◌ : {A B : Type 0} → M A → (A → M B) → M B
◌>>=◌ m f w = and_then (m w).0 f (m w).1

abbrev pub ◌>>◌ : {A B : Type 0} → M A → M B → M B
m >> n = m >>= λ _. n

abbrev pub pure : {A : Type 0} → A → M A
pure a w = (ok a, w)

abbrev pub throw : {A : Type 0} → Failure → M A
throw e w = (err e, w)

abbrev pub from_result : {A : Type 0} → Result A → M A
from_result r w = (r, w)

-- A read of a file that must be there.
abbrev pub require : {A : Type 0} → Failure → Option A → M A
require e none w = (err e, w)
require e (some a) w = (ok a, w)

abbrev pub read_ledger : M Ledger
read_ledger w = (ok w.ledger, w)

abbrev pub change : (Ledger → Ledger) → M (Unit {0})
change f w = (ok tt, record w { ledger = f w.ledger })

-- `Date.now()`, and `nowIso()` as the number of milliseconds that it shows
unfoldable pub now_iso : Env → M ℕ
now_iso env w = (ok (env.clock w.ticks), record w { ticks = suc w.ticks })

-- `randomBytes(..).toString("hex")`
unfoldable pub random_hex : Env → M Str
random_hex env w = (ok (env.random w.draws), record w { draws = suc w.draws })

-- The number of this use of the outside.
unfoldable pub next_effect : M ℕ
next_effect w = (ok w.effects, record w { effects = suc w.effects })

-- What holds of the result and of the world after `m` runs from `w`.
abbrev pub After {ℓ} : {A : Type 0} → (Result A → World → Type ℓ) → M A → World → Type ℓ
After Q m w = Q (m w).0 (m w).1

pub After-bind {ℓ κ} :
    {A B : Type 0} (P : Result A → World → Type ℓ) (Q : Result B → World → Type κ) (m : M A)
    (f : A → M B) (w : World)
    → After P m w
    → ((a : A) (v : World) → P (ok a) v → After Q (f a) v)
    → ((e : Failure) (v : World) → P (err e) v → Q (err e) v)
    → After Q (m >>= f) w
After-bind {A} {B} P Q m f w p k t = go (m w).0 (m w).1 p
  where
    go : (r : Result A) (v : World) → P r v → Q (and_then r f v).0 (and_then r f v).1
    go (ok a) v h = k a v h
    go (err e) v h = t e v h
