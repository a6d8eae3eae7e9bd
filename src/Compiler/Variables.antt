-- ===== src/Compiler/Variables.antt =====
-- packages/runtime/src/compiler/resolve-variables.ts: `${inputs.key}` in the arguments of a step.
use tool_flow.Prelude.{
  ℕ, zero, suc, ◌+◌, true, false, Option, or_else, none, some, List, [], ◌∷◌, ◌++◌, Str, codes,
  ◌==◌, nat_eq, str_eq, contains, length, if◌then◌else◌, Table, lookup,
}
use tool_flow.Types.{
  Json, null, undefined, bool, num, text, arr, obj, Items, nil, cons, Fields, end, field,
  InputValue, number, boolean, WorkflowStepSource, WorkflowSource, Result, ok, err, ◌>>=◌,
  unresolved_input,
}
use tool_flow.Env.{Env}
use tool_flow.Compiler.Normalize.{is_id_char}

-- The names that every plain object inherits, for which `key in inputs` holds too.
abbrev pub object_prototype_names : List Str
object_prototype_names =
    codes "constructor"
    ∷ codes "hasOwnProperty"
    ∷ codes "isPrototypeOf"
    ∷ codes "propertyIsEnumerable"
    ∷ codes "toLocaleString"
    ∷ codes "toString"
    ∷ codes "valueOf"
    ∷ codes "__proto__"
    ∷ codes "__defineGetter__"
    ∷ codes "__defineSetter__"
    ∷ codes "__lookupGetter__"
    ∷ codes "__lookupSetter__"
    ∷ []

-- `String(value)`
unfoldable pub string_of : InputValue → Str
string_of (InputValue.text s) = s
string_of (number n) = n
string_of (boolean true) = codes "true"
string_of (boolean false) = codes "false"

-- The text that replaces a reference to `key`.
unfoldable pub input_text : Env → Table Str InputValue → Str → Result Str
unfolding string_of
input_text env inputs key = elim (lookup inputs key) [
  | some v ↦ ok (string_of v)
  | none ↦
      if contains object_prototype_names key
      then ok (env.inherited_text key)
      else err (unresolved_input key)
]

-- The rest of the text behind `prefix`.
unfoldable pub strip_prefix : Str → Str → Option Str
strip_prefix [] s = some s
strip_prefix (p ∷ ps) [] = none
strip_prefix (p ∷ ps) (c ∷ s) = let rest = strip_prefix ps s in if p == c then rest else none

-- The longest run of key characters, if a brace closes it.
unfoldable pub match_key : Str → Option Str
match_key [] = none
match_key (c ∷ s) =
    let rest = match_key s in
    if c == b'}'
    then some []
    else if is_id_char c
    then elim rest [ none ↦ none | some k ↦ some (c ∷ k) ]
    else none

-- `/\$\{inputs\.([A-Za-z0-9_-]+)\}/` at the head of the text: the key that it captures.
unfoldable pub match_reference : Str → Option Str
unfolding strip_prefix match_key
match_reference s = elim (strip_prefix (codes "${inputs.") s) [
  | none ↦ none
  | some rest ↦ elim (match_key rest) [ none ↦ none | some [] ↦ none | some (c ∷ k) ↦ some (c ∷ k) ]
]

-- `value.replace(pattern, ...)`; `skip` counts the characters of a match still to pass over,
-- ten for `${inputs.` and `}` and one for each of the key.
unfoldable pub replace_references : Env → Table Str InputValue → ℕ → Str → Result Str
unfolding match_reference input_text
replace_references env inputs skip [] = ok []
replace_references env inputs (suc skip) (c ∷ s) = replace_references env inputs skip s
replace_references env inputs zero (c ∷ s) = elim (match_reference (c ∷ s)) [
  | none ↦ do rest ← replace_references env inputs zero s; ok (c ∷ rest)
  | some key ↦ do
    value ← input_text env inputs key
    rest ← replace_references env inputs (length key + 9) s
    ok (value ++ rest)
]

unfoldable mutual
  unfolding replace_references

  pub resolve_value : Env → Table Str InputValue → Json → Result Json
  resolve_value env inputs (text s) = do r ← replace_references env inputs 0 s; ok (text r)
  resolve_value env inputs (arr xs) = do r ← resolve_items env inputs xs; ok (arr r)
  resolve_value env inputs (obj fs) = do r ← resolve_fields env inputs fs; ok (obj r)
  resolve_value env inputs null = ok null
  resolve_value env inputs undefined = ok undefined
  resolve_value env inputs (bool b) = ok (bool b)
  resolve_value env inputs (num n) = ok (num n)

  pub resolve_items : Env → Table Str InputValue → Items → Result Items
  resolve_items env inputs nil = ok nil
  resolve_items env inputs (cons x xs) = do
    y ← resolve_value env inputs x
    ys ← resolve_items env inputs xs
    ok (cons y ys)

  pub resolve_fields : Env → Table Str InputValue → Fields → Result Fields
  resolve_fields env inputs end = ok end
  resolve_fields env inputs (field k v fs) = do
    w ← resolve_value env inputs v
    ws ← resolve_fields env inputs fs
    ok (field k w ws)

unfoldable pub resolve_steps :
    Env → Table Str InputValue → List WorkflowStepSource → Result (List WorkflowStepSource)
resolve_steps env inputs [] = ok []
resolve_steps env inputs (s ∷ ss) = do
  args ← resolve_fields env inputs s.args
  rest ← resolve_steps env inputs ss
  ok (record s { args = args } ∷ rest)

unfoldable pub resolve_variables : Env → WorkflowSource → Result WorkflowSource
unfolding resolve_steps
resolve_variables env source = do
  steps ← resolve_steps env (or_else source.inputs []) source.steps
  ok (record source { steps = steps })
