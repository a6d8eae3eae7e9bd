-- ===== src/Run/Latest.antt =====
-- Which run `latestRunId` (ledger/store.ts) takes.
use tool_flow.Prelude.{
  ◌≡◌, refl, sym, subst, ◌⊎◌, Bool, true, false, List, [], ◌∷◌, Str, codes, none, some, all, last,
  arith, inl, inr, Bool-cases, keep, map, Table, contains, str_eq,
}
use tool_flow.Types.{RunManifest}
use tool_flow.Run.Reports.{starts_with, list_run_ids, latest_run_id}
use tool_flow.Hashing.{str_leb}
use tool_flow.Hashing.Order.{str_leb_total, str_leb_trans}
use tool_flow.Cells.{insert_text, sort_texts}

-- The last of some texts, and none of them is greater.
abbrev top_of : Str → List Str → Str
top_of a [] = a
top_of a (b ∷ bs) = top_of b bs

last-top_of : (a : Str) (bs : List Str) → last (a ∷ bs) ≡ some (top_of a bs)
last-top_of a [] = refl
last-top_of a (b ∷ bs) = last-top_of b bs

abbrev below : Str → List Str → Bool
below t xs = all (λ x. str_leb x t) xs

-- A text that is put into a list whose last is the greatest.
abbrev Greatest : Str → List Str → Type 0
Greatest t xs = (last xs ≡ some t) × (below t xs ≡ true)

str_leb_refl : (s : Str) → str_leb s s ≡ true
str_leb_refl s = ground (arith, str_leb_total s s)

below_trans :
    (t u : Str) (xs : List Str) → str_leb t u ≡ true → below t xs ≡ true → below u xs ≡ true
below_trans t u [] h b = refl
below_trans t u (x ∷ xs) h b = ground (arith, str_leb_trans x t u, below_trans t u xs)

below-insert :
    (t s : Str) (xs : List Str)
    → str_leb s t ≡ true
    → below t xs ≡ true
    → below t (insert_text s xs) ≡ true
unfolding insert_text
below-insert t s [] h b = ground arith
below-insert t s (x ∷ xs) h b = ground (arith, below-insert t s xs)

cons_insert : (x s : Str) (xs : List Str) → last (x ∷ insert_text s xs) ≡ last (insert_text s xs)
unfolding insert_text
cons_insert x s [] = refl
cons_insert x s (y ∷ xs) = ground arith

-- A text that is not greater than the last one stays before it.
last-insert_below :
    (t s : Str) (xs : List Str)
    → str_leb s t ≡ true
    → last xs ≡ some t
    → last (insert_text s xs) ≡ some t
unfolding insert_text
last-insert_below t s [] h e = absurd (cc)
last-insert_below t s (x ∷ []) h e = ground arith
last-insert_below t s (x ∷ y ∷ xs) h e =
    ground (arith, cons_insert x s (y ∷ xs), last-insert_below t s (y ∷ xs))

-- A greater one is put at the end.
last-insert_above :
    (t s : Str) (xs : List Str)
    → str_leb s t ≡ false
    → below t xs ≡ true
    → last (insert_text s xs) ≡ some s
unfolding insert_text
last-insert_above t s [] h b = refl
last-insert_above t s (x ∷ xs) h b =
    ground (arith, str_leb_trans s x t, cons_insert x s xs, last-insert_above t s xs)

-- An element of some texts that none of them is greater than.
pub record IsGreatest (t : Str) (xs : List Str) : Type 0 where
  pub element : contains xs t ≡ true
  pub bound : below t xs ≡ true

sort_texts-IsGreatest :
    (x : Str) (xs : List Str)
    → (t : Str) × (last (sort_texts (x ∷ xs)) ≡ some t)
      × (below t (sort_texts (x ∷ xs)) ≡ true)
      × IsGreatest t (x ∷ xs)
unfolding sort_texts contains
sort_texts-IsGreatest x [] = (
  x,
  refl,
  ground (arith, str_leb_refl x),
  record { element = ground (arith, str_eq.beq_iff x x); bound = ground (arith, str_leb_refl x) },
)
sort_texts-IsGreatest x (y ∷ xs) =
    let (t, e, b, g) = sort_texts-IsGreatest y xs in
    let rest = sort_texts (y ∷ xs) in
    elim (Bool-cases (str_leb x t)) [
      | inl h ↦ (
        t,
        last-insert_below t x rest h e,
        below-insert t x rest h b,
        record { element = ground (arith, g.element); bound = ground (arith, g.bound) },
      )
      | inr h ↦
          let h' : str_leb t x ≡ true = ground (arith, str_leb_total x t) in
          (
            x,
            last-insert_above t x rest h b,
            below-insert x x rest (str_leb_refl x) (below_trans t x rest h' b),
            record {
              element = ground (arith, str_eq.beq_iff x x);
              bound = ground (arith, str_leb_refl x, below_trans t x (y ∷ xs) h' g.bound);
            },
          )
    ]

-- The run ids among the names of the directories.
abbrev pub run_names : Table Str RunManifest → List Str
run_names runs = keep (starts_with (codes "run_")) (map (λ e. e.0) runs)

-- The run that is taken for the latest is the one of the ledger's runs whose id is the greatest as a
-- text; there is none only if no run's id starts with `run_`.
pub latest_run_id-IsGreatest :
    (runs : Table Str RunManifest)
    → ((run_names runs ≡ []) × (latest_run_id runs ≡ none))
      ⊎ ((t : Str) × (latest_run_id runs ≡ some t) × IsGreatest t (run_names runs))
unfolding latest_run_id list_run_ids sort_texts
latest_run_id-IsGreatest runs = go (run_names runs) refl
  where
    go :
        (ids : List Str)
        → run_names runs ≡ ids
        → ((run_names runs ≡ []) × (latest_run_id runs ≡ none))
          ⊎ ((t : Str) × (latest_run_id runs ≡ some t) × IsGreatest t (run_names runs))
    go [] h = inl (h, rw h)
    go (x ∷ xs) h =
        let (t, e, _, g) = sort_texts-IsGreatest x xs in
        inr (t, rw h e, subst (IsGreatest t) (sym h) g)
