-- ===== src/Hashing.antt =====
-- Canonical JSON and hashes (packages/shared/src/hashing.ts). `JSON.stringify` and SHA-256 are
-- `digest` of the environment; the ordering of keys is the code's own.
pub mod Order
use tool_flow.Prelude.{Bool, true, false, Str, nat_beq, ltb, if◌then◌else◌, [], ◌∷◌}
use tool_flow.Types.{
  Json, null, undefined, bool, num, text, arr, obj, Items, nil, cons, Fields, end, field,
}
use tool_flow.Env.{Env}

-- The order of `Array.prototype.sort` on texts: by code units, a prefix first.
unfoldable pub str_leb : Str → Str → Bool
str_leb [] t = true
str_leb (a ∷ s) [] = false
str_leb (a ∷ s) (b ∷ t) = let rest = str_leb s t in if nat_beq a b then rest else ltb a b

unfoldable pub insert_field : Str → Json → Fields → Fields
insert_field k v end = field k v end
insert_field k v (field j w fs) =
    let rest = insert_field k v fs in
    if str_leb k j then field k v (field j w fs) else field j w rest

-- `if (entry !== undefined) sorted[key] = ...`
unfoldable pub keep_field : Str → Json → Fields → Fields
unfolding insert_field
keep_field k undefined fs = fs
keep_field k v fs = insert_field k v fs

unfoldable mutual
  unfolding keep_field

  pub sort_for_json : Json → Json
  sort_for_json (arr xs) = arr (sort_items xs)
  sort_for_json (obj fs) = obj (sort_fields fs)
  sort_for_json null = null
  sort_for_json undefined = undefined
  sort_for_json (bool b) = bool b
  sort_for_json (num n) = num n
  sort_for_json (text s) = text s

  pub sort_items : Items → Items
  sort_items nil = nil
  sort_items (cons x xs) = cons (sort_for_json x) (sort_items xs)

  pub sort_fields : Fields → Fields
  sort_fields end = end
  sort_fields (field k v fs) = keep_field k (sort_for_json v) (sort_fields fs)

-- `hashJson(value)`
unfoldable pub hash_json : Env → Json → Str
hash_json env v = env.digest (sort_for_json v)
