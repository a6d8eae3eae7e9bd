-- ===== src/Hashing/Order.antt =====
-- The canonical form of JSON and the order of fields.
use tool_flow.Prelude.{true, false, ◌||◌, ◌≡◌, refl, ap, ◌∙◌, Str, [], ◌∷◌, str_eq, ◌==◌, arith}
use tool_flow.Types.{Json, arr, obj, Items, nil, cons, Fields, end, field}
use tool_flow.Env.{Env}
use tool_flow.Hashing.{
  str_leb, insert_field, keep_field, sort_for_json, sort_items, sort_fields, hash_json,
}

pub str_leb_total : (s t : Str) → (str_leb s t || str_leb t s) ≡ true
unfolding str_leb
str_leb_total [] t = refl
str_leb_total (a ∷ s) [] = refl
str_leb_total (a ∷ s) (b ∷ t) = ground (arith, str_leb_total s t)

str_leb_antisym : (s t : Str) → str_leb s t ≡ true → str_leb t s ≡ true → s ≡ t
unfolding str_leb
str_leb_antisym [] [] p q = refl
str_leb_antisym [] (b ∷ t) p q = absurd (cc)
str_leb_antisym (a ∷ s) [] p q = absurd (cc)
str_leb_antisym (a ∷ s) (b ∷ t) p q = ground (arith, str_leb_antisym s t)

pub str_leb_trans : (s t u : Str) → str_leb s t ≡ true → str_leb t u ≡ true → str_leb s u ≡ true
unfolding str_leb
str_leb_trans [] t u p q = refl
str_leb_trans (a ∷ s) [] u p q = absurd (cc)
str_leb_trans (a ∷ s) (b ∷ t) [] p q = absurd (cc)
str_leb_trans (a ∷ s) (b ∷ t) (c ∷ u) p q = ground (arith, str_leb_trans s t u)

insert_field_comm :
    (j k : Str) (v w : Json) (fs : Fields)
    → (j == k) ≡ false
    → insert_field j v (insert_field k w fs) ≡ insert_field k w (insert_field j v fs)
unfolding insert_field
insert_field_comm j k v w end ne =
    ground (arith, str_leb_total j k, str_leb_antisym j k, str_eq.beq_iff j k)
insert_field_comm j k v w (field h x fs) ne = ground (
  arith,
  str_leb_total j k,
  str_leb_antisym j k,
  str_eq.beq_iff j k,
  str_leb_trans j k h,
  str_leb_trans k j h,
  insert_field_comm j k v w fs ne,
)

keep_field_comm :
    (j k : Str) (v w : Json) (fs : Fields)
    → (j == k) ≡ false
    → keep_field j v (keep_field k w fs) ≡ keep_field k w (keep_field j v fs)
unfolding keep_field
keep_field_comm j k v w fs ne = ground (arith, insert_field_comm j k v w fs ne)

-- Values that differ in the order of the fields of objects only, at any depth.
mutual
  pub data SameJson : Json → Json → Type 0 where
    same : (v : Json) → SameJson v v
    arrays : {xs ys : Items} → SameItems xs ys → SameJson (arr xs) (arr ys)
    objects : {fs gs : Fields} → SameFields fs gs → SameJson (obj fs) (obj gs)

  pub data SameItems : Items → Items → Type 0 where
    no_items : SameItems nil nil
    items :
        {v w : Json} {xs ys : Items}
        → SameJson v w
        → SameItems xs ys
        → SameItems (cons v xs) (cons w ys)

  pub data SameFields : Fields → Fields → Type 0 where
    no_fields : SameFields end end
    fields :
        (k : Str) {v w : Json} {fs gs : Fields}
        → SameJson v w
        → SameFields fs gs
        → SameFields (field k v fs) (field k w gs)
    swapped :
        (j k : Str) (v w : Json) (fs : Fields)
        → (j == k) ≡ false
        → SameFields (field j v (field k w fs)) (field k w (field j v fs))
    after : {fs gs hs : Fields} → SameFields fs gs → SameFields gs hs → SameFields fs hs

mutual
  unfolding sort_for_json

  sort_for_json-same : {v w : Json} → SameJson v w → sort_for_json v ≡ sort_for_json w
  sort_for_json-same (same v) = refl
  sort_for_json-same (arrays h) = ap arr (sort_items-same h)
  sort_for_json-same (objects h) = ap obj (sort_fields-same h)

  sort_items-same : {xs ys : Items} → SameItems xs ys → sort_items xs ≡ sort_items ys
  sort_items-same no_items = refl
  sort_items-same (items h t) = cc (sort_for_json-same h, sort_items-same t)

  sort_fields-same : {fs gs : Fields} → SameFields fs gs → sort_fields fs ≡ sort_fields gs
  sort_fields-same no_fields = refl
  sort_fields-same (fields k h t) = cc (sort_for_json-same h, sort_fields-same t)
  sort_fields-same (swapped j k v w fs ne) =
      keep_field_comm j k (sort_for_json v) (sort_for_json w) (sort_fields fs) ne
  sort_fields-same (after h t) = sort_fields-same h ∙ sort_fields-same t

-- Two values that differ in nothing but the order of the fields of objects, at any depth, have the
-- same hash.
pub hash_json-same : (env : Env) {v w : Json} → SameJson v w → hash_json env v ≡ hash_json env w
unfolding hash_json
hash_json-same env h = ap env.digest (sort_for_json-same h)
