-- ===== src/Compiler/Cycles/Search.antt =====
-- What one call of `visit` does, as one statement for the induction: its fuel, the order of the
-- marks, and the cycles that it reports.
use tool_flow.Prelude.{
  ℕ, ◌≤◌, ◌<◌, true, false, not, ◌≡◌, refl, ◌∙◌, inl, inr, List, [], ◌∷◌, Str, ◌==◌, str_eq,
  contains, All, tally, Bool-cases, arith,
}
use tool_flow.Types.{Result, ok, err, ◌>>=◌, Failure, cycle}
use tool_flow.Compiler.Cycles.{Marks, visit_each}

-- A chain of one or more dependencies.
pub data Reaches (deps : Str → List Str) (a : Str) : Str → Type 0 where
  edge : {b : Str} → contains (deps a) b ≡ true → Reaches deps a b
  extend : {b c : Str} → Reaches deps a b → contains (deps b) c ≡ true → Reaches deps a c

abbrev pub IsCycle : (Str → List Str) → Failure → Type 0
IsCycle deps (cycle x) = Reaches deps x x
IsCycle deps _ = ⊥

-- The search ends with marks that satisfy `P`, or with a cycle that is there.
abbrev pub Ends : (Str → List Str) → (Marks → Type 0) → Result Marks → Type 0
Ends deps P (ok m) = P m
Ends deps P (err e) = IsCycle deps e

pub Ends-bind :
    (deps : Str → List Str) (P Q : Marks → Type 0) (r : Result Marks) (f : Marks → Result Marks)
    → Ends deps P r
    → ((m : Marks) → P m → Ends deps Q (f m))
    → Ends deps Q (r >>= f)
Ends-bind deps P Q (ok m) f p k = k m p
Ends-bind deps P Q (err e) f p k = p

-- Every step stands before what it depends on, and once: the last one done is the first.
abbrev pub Ordered : (Str → List Str) → List Str → Type 0
Ordered deps [] = Unit
Ordered deps (v ∷ vs) =
    (contains vs v ≡ false) × All (λ d. contains vs d ≡ true) (deps v) × Ordered deps vs

-- The ids of a list that are not on the path.
abbrev pub free : List Str → List Str → ℕ
free path ids = tally (λ i. not (contains path i)) ids

pub free-ext :
    (p q ids : List Str) → ((x : Str) → contains p x ≡ contains q x) → free p ids ≡ free q ids
free-ext p q [] h = refl
free-ext p q (i ∷ ids) h = ground (arith, h i, free-ext p q ids h)

free-cons_le : (p ids : List Str) (x : Str) → free (x ∷ p) ids ≤ free p ids
unfolding contains
free-cons_le p [] x = omega arith
free-cons_le p (i ∷ ids) x = ground (arith, free-cons_le p ids x)

pub free-cons_lt :
    (p ids : List Str) (x : Str)
    → contains ids x ≡ true
    → contains p x ≡ false
    → free (x ∷ p) ids < free p ids
unfolding contains
free-cons_lt p [] x h n = cc
free-cons_lt p (i ∷ ids) x h n = elim (Bool-cases (x == i)) [
  | inl same ↦ ground (arith, str_eq.beq_iff x i, str_eq.beq_iff i x, free-cons_le p ids x)
  | inr other ↦ ground (arith, str_eq.beq_iff i x, str_eq.beq_iff x i, free-cons_lt p ids x)
]

module _ (deps : Str → List Str) where
  pub record Inv (m : Marks) : Type 0 where
    pub ordered : Ordered deps m.visited
    pub apart : (x : Str) → contains m.visiting x ≡ true → contains m.visited x ≡ false

  -- After a search from marks `m` to marks `n`.
  pub record Kept (m n : Marks) : Type 0 where
    pub inv : Inv n
    pub grows : (x : Str) → contains m.visited x ≡ true → contains n.visited x ≡ true
    pub path : (x : Str) → contains n.visiting x ≡ contains m.visiting x

  pub Kept-trans : {l m n : Marks} → Kept l m → Kept m n → Kept l n
  Kept-trans a b = record {
    inv = b.inv;
    grows = λ x h. b.grows x (a.grows x h);
    path = λ x. b.path x ∙ a.path x;
  }

  abbrev pub Done : Marks → Str → Type 0
  Done n x = contains n.visited x ≡ true

  pub each-Ends :
      (search : Str → Marks → Result Marks) (base targets : List Str)
      → ((x : Str) (m : Marks)
          → contains targets x ≡ true
          → Inv m
          → ((y : Str) → contains m.visiting y ≡ contains base y)
          → Ends deps (λ n. Kept m n × Done n x) (search x m))
      → (xs : List Str) (m : Marks) → All (λ x. contains targets x ≡ true) xs
      → Inv m
      → ((y : Str) → contains m.visiting y ≡ contains base y)
      → Ends deps (λ n. Kept m n × All (Done n) xs) (visit_each search xs m)
  unfolding visit_each
  each-Ends search base targets h [] m t i p =
      (record { inv = i; grows = λ x e. e; path = λ x. refl }, tt)
  each-Ends search base targets h (x ∷ xs) m t i p =
      Ends-bind deps (λ n. Kept m n × Done n x) (λ n. Kept m n × All (Done n) (x ∷ xs)) (search x m)
        (visit_each search xs) (h x m t.0 i p)
        λ n k.
          finish n k (visit_each search xs n)
            (each-Ends search base targets h xs n t.1 k.0.inv (λ y. k.0.path y ∙ p y))
    where
      finish :
          (n : Marks)
          → Kept m n × Done n x
          → (r : Result Marks) → Ends deps (λ l. Kept n l × All (Done l) xs) r
          → Ends deps (λ l. Kept m l × All (Done l) (x ∷ xs)) r
      finish n k (ok l) e = (Kept-trans k.0 e.0, (e.0.grows x k.1, e.1))
      finish n k (err f) e = e
