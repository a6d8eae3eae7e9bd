-- ===== src/Compiler/Cycles/Visit.antt =====
-- The induction on the fuel of `visit`, over the ids of the steps, which the dependencies do not
-- leave.
use tool_flow.Prelude.{
  ℕ, zero, suc, ◌<◌, true, false, ◌≡◌, refl, sym, ◌∙◌, inl, inr, List, ◌∷◌, Str, ◌==◌, str_eq,
  beq_self, eq_of_beq, contains, without, contains-without, All, All-contains, All-of_contains,
  Bool-cases, arith,
}
use tool_flow.Types.{ok}
use tool_flow.Compiler.Cycles.{Marks, visit, visit_each}
use tool_flow.Compiler.Cycles.Search.{
  Reaches, edge, extend, Ends, Ends-bind, free, free-ext, free-cons_lt, Inv, Kept, Done, each-Ends,
}

abbrev enter : Str → Marks → Marks
enter id m = record m { visiting = id ∷ m.visiting }

abbrev leave : Str → Marks → Marks
leave id m = record { visiting = without m.visiting id; visited = id ∷ m.visited }

module _ (deps : Str → List Str) where
  enter-Inv :
      (id : Str) (m : Marks) → Inv deps m → contains m.visited id ≡ false → Inv deps (enter id m)
  unfolding contains
  enter-Inv id m i n = record {
    ordered = i.ordered;
    apart = λ x h. elim (Bool-cases (x == id)) [
      | inl same ↦ rw (eq_of_beq x id same) n
      | inr other ↦ i.apart x (ground arith)
    ];
  }

  leave-Kept :
      (id : Str) (m n : Marks)
      → contains m.visited id ≡ false
      → contains m.visiting id ≡ false
      → Kept deps (enter id m) n
      → All (Done deps n) (deps id)
      → Kept deps m (leave id n) × Done deps (leave id n) id
  unfolding contains
  leave-Kept id m n v p k d =
      let on_path : contains n.visiting id ≡ true = k.path id ∙ ground (arith, beq_self id) in
      (
        record {
          inv = record {
            ordered = (k.inv.apart id on_path, d, k.inv.ordered);
            apart = λ x h. ground (
              arith,
              k.inv.apart x,
              contains-without n.visiting id x,
              str_eq.beq_iff x id,
              str_eq.beq_iff id x,
            );
          };
          grows = λ x h. ground (arith, k.grows x h);
          path = λ x. ground (
            arith,
            k.path x,
            contains-without n.visiting id x,
            str_eq.beq_iff x id,
            str_eq.beq_iff id x,
          );
        },
        ground (arith, beq_self id),
      )

  module _ (ids : List Str)
      (closed : (x : Str) → contains ids x ≡ true → All (λ d. contains ids d ≡ true) (deps x)) where
    pub visit-Ends :
        (fuel : ℕ) (id : Str) (m : Marks)
        → contains ids id ≡ true
        → Inv deps m
        → ((x : Str) → contains m.visiting x ≡ true → Reaches deps x id)
        → free m.visiting ids < fuel
        → Ends deps (λ n. Kept deps m n × Done deps n id) (visit deps fuel id m)
    unfolding visit
    visit-Ends zero id m c i r f = absurd (omega arith)
    visit-Ends (suc fuel) id m c i r f = elim (Bool-cases (contains m.visited id)) [
      | inl old ↦ rw old (record { inv = i; grows = λ x e. e; path = λ x. refl }, old)
      | inr new ↦ elim (Bool-cases (contains m.visiting id)) [
        | inl on_path ↦ rw (new, on_path) (r id on_path)
        | inr off ↦
            rw (new, off)
              (Ends-bind deps (λ n. Kept deps (enter id m) n × All (Done deps n) (deps id))
                (λ n. Kept deps m n × Done deps n id)
                (visit_each (visit deps fuel) (deps id) (enter id m)) (λ n. ok (leave id n))
                (each-Ends deps (visit deps fuel) (id ∷ m.visiting) (deps id)
                  (inner (visit-Ends fuel) new off) (deps id) (enter id m)
                  (All-of_contains (λ x. contains (deps id) x ≡ true) (deps id) (λ a h. h))
                  (enter-Inv id m i new) (λ y. refl))
                (λ n k. leave-Kept id m n new off k.0 k.1))
      ]
    ]
      where
        inner :
            ((x : Str) (n : Marks)
              → contains ids x ≡ true
              → Inv deps n
              → ((y : Str) → contains n.visiting y ≡ true → Reaches deps y x)
              → free n.visiting ids < fuel
              → Ends deps (λ l. Kept deps n l × Done deps l x) (visit deps fuel x n))
            → contains m.visited id ≡ false
            → contains m.visiting id ≡ false
            → (x : Str) (n : Marks) → contains (deps id) x ≡ true
            → Inv deps n
            → ((y : Str) → contains n.visiting y ≡ contains (id ∷ m.visiting) y)
            → Ends deps (λ l. Kept deps n l × Done deps l x) (visit deps fuel x n)
        inner ih new off x n dep j same =
            ih x n (All-contains (λ d. contains ids d ≡ true) (deps id) x (closed id c) dep) j
              (λ y on. chain y (sym (same y) ∙ on))
              (omega (
                arith,
                free-ext n.visiting (id ∷ m.visiting) ids same,
                free-cons_lt m.visiting ids id c off,
              ))
          where
            chain : (y : Str) → contains (id ∷ m.visiting) y ≡ true → Reaches deps y x
            chain y on = elim (Bool-cases (y == id)) [
              | inl self ↦ rw (eq_of_beq y id self) (edge dep)
              | inr other ↦ extend (r y (unfold contains in ground arith)) dep
            ]
