-- ===== src/Upsert.antt =====
-- The entry lists of the two index files (packages/runtime/src/control-plane/taskflow-mirror.ts and
-- taskflow-controller.ts): both drop the old entry of a key, add the new one and sort by time.
pub mod Laws
use tool_flow.Prelude.{
  ℕ, Bool, not, List, [], ◌∷◌, ◌++◌, Str, str_eq, ◌==◌, leb, keep, if◌then◌else◌,
}

module _ {A : Type 0} (time : A → ℕ) where
  unfoldable pub insert_by : A → List A → List A
  insert_by x [] = x ∷ []
  insert_by x (y ∷ ys) =
      let rest = insert_by x ys in if leb (time x) (time y) then x ∷ y ∷ ys else y ∷ rest

  -- `xs.sort((a, b) => a.updatedAt.localeCompare(b.updatedAt))`, a stable sort by time
  unfoldable pub sort_by : List A → List A
  unfolding insert_by
  sort_by [] = []
  sort_by (x ∷ xs) = insert_by x (sort_by xs)

-- The list without the entry of the key, with the new one, sorted.
unfoldable pub upsert : {A : Type 0} (key : A → Str) (time : A → ℕ) → List A → A → List A
unfolding sort_by
upsert key time xs x = sort_by time (keep (λ y. not (key y == key x)) xs ++ x ∷ [])
