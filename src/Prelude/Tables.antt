-- ===== src/Prelude/Tables.antt =====
-- Association tables: a JavaScript `Map` or object, and the files of one kind under their keys.
-- A write to a key that is present keeps its place, a new key goes last.
use mathlib.Core.Path.{◌≡◌, refl}
use mathlib.Core.Logic.{◌↔◌}
use mathlib.Core.Bool.{Bool, true, false, ◌&&◌}
use mathlib.Core.Option.{Option, none, some}
use mathlib.Core.List.{List, [], ◌∷◌}
use native.Mathlib.Omega.{arith}
use tool_flow.Prelude.Tests.{if◌then◌else◌}
use tool_flow.Prelude.Equality.{Eq, ◌==◌, beq_self, Str, str_eq}

abbrev pub Table : Type 0 → Type 0 → Type 0
Table K V = List (K × V)

module _ {K V : Type 0} ⦃e : Eq K⦄ where
  unfoldable pub lookup : Table K V → K → Option V
  lookup [] k = none
  lookup ((j, v) ∷ t) k = if j == k then some v else lookup t k

  unfoldable pub put : Table K V → K → V → Table K V
  put [] k v = (k, v) ∷ []
  put ((j, w) ∷ t) k v = if j == k then (k, v) ∷ t else (j, w) ∷ put t k v

  pub lookup-put :
      (t : Table K V) (k : K) (v : V) (j : K)
      → lookup (put t k v) j ≡ (if k == j then some v else lookup t j)
  unfolding lookup put
  lookup-put [] k v j = refl
  lookup-put ((i, w) ∷ t) k v j =
      ground (arith, e.beq_iff k j, e.beq_iff i k, e.beq_iff i j, lookup-put t k v j)

  pub lookup-put_self : (t : Table K V) (k : K) (v : V) → lookup (put t k v) k ≡ some v
  lookup-put_self t k v = simp (lookup-put, beq_self k)

  pub lookup-put_ne :
      (t : Table K V) (k : K) (v : V) (j : K) → (k == j) ≡ false → lookup (put t k v) j ≡ lookup t j
  lookup-put_ne t k v j h = simp (lookup-put, h)

-- Two keys, as in `runs/<run>/grants/<grant>.json`.
abbrev pub Key2 : Type 0
Key2 = Str × Str

unfoldable pub key2_beq : Key2 → Key2 → Bool
key2_beq (a, b) (c, d) = a == c && b == d

pub key2_beq_iff : (p q : Key2) → (key2_beq p q ≡ true) ↔ (p ≡ q)
unfolding key2_beq
key2_beq_iff (a, b) (c, d) = ground (arith, str_eq.beq_iff a c, str_eq.beq_iff b d)

instance abbrev pub key2_eq : Eq Key2
key2_eq = record { beq = key2_beq; beq_iff = key2_beq_iff }
