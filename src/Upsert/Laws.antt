-- ===== src/Upsert/Laws.antt =====
-- Which entries such a list has, and in which order.
use tool_flow.Prelude.{
  ℕ, suc, ◌≤◌, Bool, true, false, not, ◌&&◌, ◌≡◌, refl, sym, ◌∙◌, List, [], ◌∷◌, ◌++◌, Str, str_eq,
  beq_self, ◌==◌, all, tally, keep, leb, arith, if◌then◌else◌,
}
use tool_flow.Upsert.{insert_by, sort_by, upsert}

module _ {A : Type 0} (key : A → Str) (time : A → ℕ) where
  -- Each entry stands before those with a later time.
  abbrev pub is_sorted : List A → Bool
  is_sorted [] = true
  is_sorted (x ∷ xs) = all (λ y. leb (time x) (time y)) xs && is_sorted xs

  all-insert_by :
      (p : A → Bool) (x : A) (xs : List A) → all p (insert_by time x xs) ≡ (p x && all p xs)
  unfolding insert_by
  all-insert_by p x [] = refl
  all-insert_by p x (y ∷ ys) = ground (arith, all-insert_by p x ys)

  all-leb_trans :
      (a b : ℕ) (xs : List A)
      → a ≤ b
      → all (λ y. leb b (time y)) xs ≡ true
      → all (λ y. leb a (time y)) xs ≡ true
  all-leb_trans a b [] h e = refl
  all-leb_trans a b (x ∷ xs) h e = ground (arith, all-leb_trans a b xs h)

  insert_by-is_sorted :
      (x : A) (xs : List A) → is_sorted xs ≡ true → is_sorted (insert_by time x xs) ≡ true
  unfolding insert_by
  insert_by-is_sorted x [] h = refl
  insert_by-is_sorted x (y ∷ ys) h = ground (
    arith,
    insert_by-is_sorted x ys,
    all-insert_by (λ z. leb (time y) (time z)) x ys,
    all-leb_trans (time x) (time y) ys,
  )

  sort_by-is_sorted : (xs : List A) → is_sorted (sort_by time xs) ≡ true
  unfolding sort_by
  sort_by-is_sorted [] = refl
  sort_by-is_sorted (x ∷ xs) = insert_by-is_sorted x (sort_by time xs) (sort_by-is_sorted xs)

  tally-insert_by :
      (q : A → Bool) (x : A) (xs : List A)
      → tally q (insert_by time x xs) ≡ (if q x then suc (tally q xs) else tally q xs)
  unfolding insert_by
  tally-insert_by q x [] = refl
  tally-insert_by q x (y ∷ ys) = ground (arith, tally-insert_by q x ys)

  tally-sort_by : (q : A → Bool) (xs : List A) → tally q (sort_by time xs) ≡ tally q xs
  unfolding sort_by
  tally-sort_by q [] = refl
  tally-sort_by q (x ∷ xs) =
      ground (arith, tally-insert_by q x (sort_by time xs), tally-sort_by q xs)

  tally-keep_append :
      (q p : A → Bool) (xs : List A) (x : A)
      → tally q (keep p xs ++ x ∷ [])
        ≡ (if q x then suc (tally (λ y. p y && q y) xs) else tally (λ y. p y && q y) xs)
  tally-keep_append q p [] x = refl
  tally-keep_append q p (y ∷ ys) x = ground (arith, tally-keep_append q p ys x)

  tally-upsert :
      (q : A → Bool) (xs : List A) (x : A)
      → tally q (upsert key time xs x) ≡ (
          if q x
          then suc (tally (λ y. not (key y == key x) && q y) xs)
          else tally (λ y. not (key y == key x) && q y) xs)
  unfolding upsert
  tally-upsert q xs x =
      tally-sort_by q (keep (λ y. not (key y == key x)) xs ++ x ∷ [])
      ∙ tally-keep_append q (λ y. not (key y == key x)) xs x

  none-twice : (p q : A → Bool) (xs : List A) → tally (λ y. not (p y) && (p y && q y)) xs ≡ 0
  none-twice p q [] = refl
  none-twice p q (y ∷ ys) = ground (arith, none-twice p q ys)

  tally-filter_twice :
      (p q : A → Bool) (xs : List A)
      → tally (λ y. not (p y) && (not (p y) && q y)) xs ≡ tally (λ y. not (p y) && q y) xs
  tally-filter_twice p q [] = refl
  tally-filter_twice p q (y ∷ ys) = ground (arith, tally-filter_twice p q ys)

  tally-filter_none : (p : A → Bool) (xs : List A) → tally (λ y. not (p y) && p y) xs ≡ 0
  tally-filter_none p [] = refl
  tally-filter_none p (y ∷ ys) = ground (arith, tally-filter_none p ys)

  -- The list with the new entry: sorted, with one entry of its key, which is the new one, and of
  -- the other keys exactly the entries of the old list.
  pub record IsUpserted (old : List A) (x : A) (xs : List A) : Type 0 where
    pub sorted : is_sorted xs ≡ true
    pub once : tally (λ y. key y == key x) xs ≡ 1
    pub entry : (q : A → Bool) → q x ≡ true → tally (λ y. key y == key x && not (q y)) xs ≡ 0
    pub others :
        (q : A → Bool)
        → tally (λ y. not (key y == key x) && q y) xs ≡ tally (λ y. not (key y == key x) && q y) old

  pub upsert-IsUpserted : (old : List A) (x : A) → IsUpserted old x (upsert key time old x)
  upsert-IsUpserted old x = record {
    sorted = upsert-is_sorted;
    once =
        tally-upsert (λ y. key y == key x) old x
        ∙ ground (arith, beq_self (key x), tally-filter_none (λ y. key y == key x) old);
    entry = λ q h.
        tally-upsert (λ y. key y == key x && not (q y)) old x
        ∙ ground (arith, beq_self (key x), none-twice (λ y. key y == key x) (λ y. not (q y)) old);
    others = λ q.
        tally-upsert (λ y. not (key y == key x) && q y) old x
        ∙ ground (arith, beq_self (key x), tally-filter_twice (λ y. key y == key x) q old);
  }
    where
      upsert-is_sorted : is_sorted (upsert key time old x) ≡ true
      upsert-is_sorted =
          unfold upsert in sort_by-is_sorted (keep (λ y. not (key y == key x)) old ++ x ∷ [])

  tally_same : (p q : A → Bool) (xs : List A) → ((y : A) → p y ≡ q y) → tally p xs ≡ tally q xs
  tally_same p q [] h = refl
  tally_same p q (y ∷ ys) h = ground (arith, h y, tally_same p q ys h)

  -- What is counted of other keys is what the old list has.
  pub tally-IsUpserted :
      (old : List A) (x : A) (xs : List A)
      → IsUpserted old x xs
      → (p : A → Bool) → ((y : A) → p y ≡ true → (key y == key x) ≡ false)
      → tally p xs ≡ tally p old
  tally-IsUpserted old x xs u p h =
      tally_same p others_only xs same ∙ u.others p ∙ sym (tally_same p others_only old same)
    where
      others_only : A → Bool
      others_only y = not (key y == key x) && p y

      same : (y : A) → p y ≡ others_only y
      same y = ground (arith, h y)
