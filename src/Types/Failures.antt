-- ===== src/Types/Failures.antt =====
-- What the code throws (packages/shared/src/errors.ts), with the values that each message shows,
-- and the result of code that may throw.
use tool_flow.Prelude.{Str, ◌≡◌, refl, subst}
use tool_flow.Types.Enums.{GrantState}

pub data Failure : Type 0 where
  -- ValidationError, and the plain errors of the compiler
  unsupported_schema no_name no_steps not_json_file : Failure
  invalid_step_id duplicate_step unsupported_action unsupported_cell : Str → Failure
  unresolved_input cycle : Str → Failure
  unknown_dependency : (step dep : Str) → Failure
  -- PolicyError
  bad_signature grant_expired bridge_mismatch action_mismatch payload_mismatch : Failure
  policy_mismatch approval_missing approval_not_found approval_hash_mismatch : Failure
  approval_payload_mismatch approval_policy_mismatch non_local_transport : Failure
  grant_not_issued : GrantState → Failure
  -- errors of the cells and of the control plane
  missing_argument not_string_array command_not_allowed : Str → Failure
  missing_binary effect_failed missing_file run_quarantined : Failure
  unknown_step not_elevated missing_entry : Str → Failure
  -- errors of the reports, of the command line and of the plugin
  no_runs not_a_text : Failure
  missing_operand unknown_command : Str → Failure
  -- the bound on a loop of the model ran out; no run of the code does this
  out_of_fuel : Failure

pub data Result {ℓ} (A : Type ℓ) : Type ℓ where
  ok : A → Result A
  err : Failure → Result A

-- Chains, for `do`.
infixl 5 ◌>>=◌
abbrev pub ◌>>=◌ {μ ν} : {S : Type μ} {T : Type ν} → Result S → (S → Result T) → Result T
err failure >>= next = err failure
ok s >>= next = next s

-- What holds of the value, if there is one.
abbrev pub Holds {ℓ κ} : {A : Type ℓ} → (A → Type κ) → Result A → Type κ
Holds P (ok a) = P a
Holds P (err e) = Unit

pub Holds-bind {ℓ κ μ} :
    {A : Type ℓ} {B : Type κ} (Q : B → Type μ) (m : Result A) (f : A → Result B)
    → ((a : A) → m ≡ ok a → Holds Q (f a))
    → Holds Q (m >>= f)
Holds-bind Q (ok a) f h = h a refl
Holds-bind Q (err e) f h = tt

pub Holds-ok {ℓ κ} :
    {A : Type ℓ} (P : A → Type κ) (m : Result A) {a : A} → m ≡ ok a → Holds P m → P a
Holds-ok P (ok b) e h = subst P (cc) h
Holds-ok P (err f) e h = absurd (cc)

-- What a chain that succeeded went through.
pub >>=-eq-ok {μ ν} :
    {S : Type μ} {T : Type ν} (first : Result S) (next : S → Result T) {t : T}
    → (first >>= next) ≡ ok t
    → (s : S) × (first ≡ ok s) × (next s ≡ ok t)
>>=-eq-ok (err failure) next h = absurd (cc)
>>=-eq-ok (ok s) next h = (s, refl, h)
