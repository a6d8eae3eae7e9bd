-- ===== src/Controller/Frame.antt =====
-- What the run service does with the controller's files: every command leaves them alone.
pub mod Bridges
pub mod Runs
pub mod Recovery
pub mod Operator
use tool_flow.Prelude.{
  ◌≡◌, refl, ◌∙◌, ap, Bool, true, false, Option, none, some, if◌then◌else◌, Str, ℕ, zero, suc, List,
  [], ◌∷◌, arith,
}
use tool_flow.Types.{Result, ok, err, Failure}
use tool_flow.Env.{Env}
use tool_flow.Ledger.{open_store}
use tool_flow.World.{
  World, Ledger, M, ◌>>=◌, ◌>>◌, After-bind, pure, throw, from_result, require, read_ledger, change,
  now_iso, random_hex,
}
use tool_flow.Cells.Quiet.{Quiet}
use tool_flow.Controller.Index.{controller_files}

pub record KeepsFlows {A : Type 0} (m : M A) : Type 0 where
  pub at : (w : World) → controller_files (m w).1.ledger ≡ controller_files w.ledger

module _ {A : Type 0} where
  pub KeepsFlows-Quiet : {m : M A} → Quiet m → KeepsFlows m
  KeepsFlows-Quiet q = record { at = λ w. ap controller_files (q w) }

  pub KeepsFlows-pure : (a : A) → KeepsFlows (pure a)
  KeepsFlows-pure a = record { at = λ w. refl }

  pub KeepsFlows-throw : (e : Failure) → KeepsFlows (throw {A = A} e)
  KeepsFlows-throw e = record { at = λ w. refl }

  pub KeepsFlows-from_result : (r : Result A) → KeepsFlows (from_result r)
  KeepsFlows-from_result r = record { at = λ w. refl }

  pub KeepsFlows-require : (e : Failure) (o : Option A) → KeepsFlows (require e o)
  KeepsFlows-require e none = record { at = λ w. refl }
  KeepsFlows-require e (some a) = record { at = λ w. refl }

  pub KeepsFlows-if :
      (b : Bool) (m n : M A) → KeepsFlows m → KeepsFlows n → KeepsFlows (if b then m else n)
  KeepsFlows-if true m n p q = p
  KeepsFlows-if false m n p q = q

  pub KeepsFlows-bind :
      {B : Type 0} (m : M A) (f : A → M B)
      → KeepsFlows m
      → ((a : A) → KeepsFlows (f a))
      → KeepsFlows (m >>= f)
  KeepsFlows-bind m f p k = record {
    at = λ w.
        After-bind (λ r v. controller_files v.ledger ≡ controller_files w.ledger)
          (λ r v. controller_files v.ledger ≡ controller_files w.ledger) m f w (p.at w)
          (λ a v h. (k a).at v ∙ h) (λ e v h. h);
  }

pub KeepsFlows-read_ledger : KeepsFlows read_ledger
KeepsFlows-read_ledger = record { at = λ w. refl }

pub KeepsFlows-change :
    (f : Ledger → Ledger)
    → ((l : Ledger) → controller_files (f l) ≡ controller_files l)
    → KeepsFlows (change f)
KeepsFlows-change f h = record { at = λ w. h w.ledger }

pub KeepsFlows-now_iso : (env : Env) → KeepsFlows (now_iso env)
unfolding now_iso
KeepsFlows-now_iso env = record { at = λ w. refl }

pub KeepsFlows-random_hex : (env : Env) → KeepsFlows (random_hex env)
unfolding random_hex
KeepsFlows-random_hex env = record { at = λ w. refl }

pub KeepsFlows-open_store : (env : Env) (root : Str) → KeepsFlows (open_store env root)
unfolding open_store
KeepsFlows-open_store env root = record { at = λ w. refl }

pub ruleset keep_rules = (
  KeepsFlows-open_store, KeepsFlows-pure, KeepsFlows-throw, KeepsFlows-from_result,
  KeepsFlows-require, KeepsFlows-if, KeepsFlows-bind, KeepsFlows-read_ledger, KeepsFlows-change,
  KeepsFlows-now_iso, KeepsFlows-random_hex, refl,
)
