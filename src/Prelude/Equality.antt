-- ===== src/Prelude/Equality.antt =====
-- Equality tests as an interface, and texts. A text of the program is the list of its UTF-16
-- code units, which is what a JavaScript string is.
use Prim.Native.Nat.{ℕ}
use Prim.Native.Char.{code}
use Prim.Native.String.{String}
use mathlib.Core.Path.{◌≡◌, refl, sym, subst}
use mathlib.Core.Logic.{◌↔◌, inl, inr}
use mathlib.Core.Bool.{Bool, true, false, ◌&&◌, ◌||◌}
use mathlib.Core.List.{List, [], ◌∷◌}
use native.Mathlib.Omega.{arith}
use tool_flow.Prelude.Tests.{nat_beq, nat_beq_iff, if◌then◌else◌, Bool-cases}
use tool_flow.Prelude.Lists.{All}

abbrev pub Str : Type 0
Str = List ℕ

-- The code units of a text written in ASCII.
abbrev pub codes : String → Str
codes String.[] = []
codes (String.◌∷◌ c s) = code c ∷ codes s

pub record Eq {ℓ} (A : Type ℓ) : Type ℓ where
  pub beq : A → A → Bool
  pub beq_iff : (x y : A) → (beq x y ≡ true) ↔ (x ≡ y)

unfoldable pub str_beq : Str → Str → Bool
str_beq [] [] = true
str_beq (a ∷ s) (b ∷ t) = nat_beq a b && str_beq s t
str_beq _ _ = false

pub str_beq_iff : (s t : Str) → (str_beq s t ≡ true) ↔ (s ≡ t)
unfolding str_beq
str_beq_iff [] [] = (λ _. refl, λ _. refl)
str_beq_iff [] (b ∷ t) = (λ h. cc, λ h. cc)
str_beq_iff (a ∷ s) [] = (λ h. cc, λ h. cc)
str_beq_iff (a ∷ s) (b ∷ t) = ground (arith, nat_beq_iff a b, str_beq_iff s t)

-- `a === b`
infix 50 ◌==◌
abbrev pub ◌==◌ {ℓ} : {A : Type ℓ} ⦃same : Eq A⦄ → A → A → Bool
◌==◌ ⦃same⦄ = same.beq

instance abbrev pub nat_eq : Eq ℕ
nat_eq = record { beq = nat_beq; beq_iff = nat_beq_iff }

instance abbrev pub str_eq : Eq Str
str_eq = record { beq = str_beq; beq_iff = str_beq_iff }

module _ {ℓ} {A : Type ℓ} ⦃e : Eq A⦄ where
  pub beq_self : (a : A) → (a == a) ≡ true
  beq_self a = (e.beq_iff a a).1 refl

  pub eq_of_beq : (a b : A) → (a == b) ≡ true → a ≡ b
  eq_of_beq a b h = (e.beq_iff a b).0 h

  -- `xs.includes(a)`, `set.has(a)`
  unfoldable pub contains : List A → A → Bool
  contains [] a = false
  contains (x ∷ xs) a = a == x || contains xs a

  -- `set.delete(a)`
  unfoldable pub without : List A → A → List A
  without [] a = []
  without (x ∷ xs) a = let rest = without xs a in if a == x then rest else x ∷ rest

  pub contains-without :
      (xs : List A) (a b : A)
      → contains (without xs a) b ≡ (if a == b then false else contains xs b)
  unfolding contains without
  contains-without [] a b = ground arith
  contains-without (x ∷ xs) a b =
      ground (arith, contains-without xs a b, e.beq_iff a x, e.beq_iff b x, e.beq_iff a b)

  -- All distinct.
  abbrev pub Distinct : List A → Type 0
  Distinct [] = Unit
  Distinct (x ∷ xs) = (contains xs x ≡ false) × Distinct xs

  pub All-contains {κ} :
      (P : A → Type κ) (xs : List A) (a : A) → All P xs → contains xs a ≡ true → P a
  unfolding contains
  All-contains P [] a h c = cc
  All-contains P (x ∷ xs) a h c = elim (Bool-cases (a == x)) [
    | inl same ↦ subst P (sym (eq_of_beq a x same)) h.0
    | inr other ↦ All-contains P xs a h.1 (ground arith)
  ]

  pub All-of_contains {κ} :
      (P : A → Type κ) (xs : List A) → ((a : A) → contains xs a ≡ true → P a) → All P xs
  unfolding contains
  All-of_contains P [] f = tt
  All-of_contains P (x ∷ xs) f =
      (f x (ground (arith, beq_self x)), All-of_contains P xs (λ a h. f a (ground arith)))
