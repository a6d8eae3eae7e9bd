-- ===== src/Cells.antt =====
-- The cells, which carry out the actions: packages/runtime/src/cells and packages/elevated/src/cell.
pub mod Elevated
pub mod Quiet
pub mod Allowed
use tool_flow.Prelude.{
  ℕ, ◌+◌, Bool, true, false, not, ◌&&◌, List, [], ◌∷◌, ◌++◌, Str, codes, Option, none, some, ◌==◌,
  str_eq, contains, String, if◌then◌else◌,
}
use tool_flow.Types.{
  Json, null, undefined, bool, num, text, arr, obj, Items, nil, cons, Fields, end, field, get_field,
  texts, CellId, read, research, session, elevated, Action, read_file, list_files, research_note,
  session_note, exec_command, apply_patch, action_name, BridgeRequest, BridgeExecutionResult,
  Result, ok, err, missing_argument, not_string_array, command_not_allowed, missing_binary,
  effect_failed,
}
use tool_flow.Env.{Env, SpawnResult}
use tool_flow.Hashing.{str_leb}
use tool_flow.World.{M, ◌>>=◌, ◌>>◌, pure, throw, from_result, require, next_effect}

-- `stringArg(value, name)`
unfoldable pub string_arg : Json → Str → Result Str
string_arg (text []) name = err (missing_argument name)
string_arg (text (c ∷ s)) name = ok (c ∷ s)
string_arg _ name = err (missing_argument name)

unfoldable pub strings_of : Items → Option (List Str)
strings_of nil = some []
strings_of (cons (text s) xs) = elim (strings_of xs) [ none ↦ none | some ss ↦ some (s ∷ ss) ]
strings_of (cons _ xs) = none

-- `arrayOfStrings(value, name)`
unfoldable pub array_of_strings : Json → Str → Result (List Str)
unfolding strings_of
array_of_strings (arr xs) name = elim (strings_of xs) [
  | none ↦ err (not_string_array name)
  | some ss ↦ ok ss
]
array_of_strings _ name = err (not_string_array name)

-- `typeof value === "string" ? value : fallback`
unfoldable pub text_or : Json → Str → Str
text_or (text s) d = s
text_or _ d = d

unfoldable pub unsupported : String → Action → BridgeExecutionResult
unfolding action_name
unsupported cell a = record {
  ok = false;
  output = none;
  error =
      some (codes "Unsupported " ++ codes cell ++ codes " action " ++ action_name a ++ codes ".");
}

unfoldable pub succeeds : Fields → BridgeExecutionResult
succeeds output = record { ok = true; output = some output; error = none }

unfoldable pub insert_text : Str → List Str → List Str
insert_text s [] = s ∷ []
insert_text s (t ∷ ts) = let rest = insert_text s ts in if str_leb s t then s ∷ t ∷ ts else t ∷ rest

-- `entries.sort()`
unfoldable pub sort_texts : List Str → List Str
unfolding insert_text
sort_texts [] = []
sort_texts (s ∷ ss) = insert_text s (sort_texts ss)

unfoldable pub entry_json : Env → Str → Str → Bool × ℕ → Json
entry_json env name full (directory, size) = obj (
    field (codes "name") (text name) (
      field (codes "path") (text full) (
        field (codes "type") (text (if directory then codes "directory" else codes "file"))
          (field (codes "size") (num (env.decimal size)) end))))

unfoldable pub stat_entries : Env → Str → List Str → M Items
unfolding next_effect entry_json
stat_entries env path [] = pure nil
stat_entries env path (name ∷ names) = do
  n ← next_effect
  let full = env.resolve_in path name
  info ← require effect_failed (env.file_stat n full)
  rest ← stat_entries env path names
  pure (cons (entry_json env name full info) rest)

-- `request.payload.path ?? "."`
unfoldable pub path_or_dot : Json → Json
path_or_dot undefined = text (codes ".")
path_or_dot null = text (codes ".")
path_or_dot v = v

unfoldable pub read_file_action : Env → Fields → M BridgeExecutionResult
unfolding string_arg next_effect succeeds
read_file_action env payload = do
  path ← from_result (string_arg (get_field payload (codes "path")) (codes "path"))
  n ← next_effect
  content ← require effect_failed (env.file_text n (env.resolve path))
  pure (
      succeeds (
        field (codes "path") (text (env.resolve path))
          (field (codes "content") (text content) end)))

unfoldable pub list_files_action : Env → Fields → M BridgeExecutionResult
unfolding string_arg path_or_dot next_effect sort_texts stat_entries succeeds
list_files_action env payload = do
  path ← from_result (string_arg (path_or_dot (get_field payload (codes "path"))) (codes "path"))
  n ← next_effect
  names ← require effect_failed (env.dir_names n (env.resolve path))
  entries ← stat_entries env (env.resolve path) (sort_texts names)
  pure (
      succeeds (
        field (codes "path") (text (env.resolve path)) (field (codes "entries") (arr entries) end)))

unfoldable pub run_read_cell : Env → BridgeRequest → M BridgeExecutionResult
unfolding read_file_action list_files_action unsupported
run_read_cell env request = elim request.action [
  | read_file ↦ read_file_action env request.payload
  | list_files ↦ list_files_action env request.payload
  | a ↦ pure (unsupported "read" a)
]

-- `String(value)`
unfoldable pub display : Env → Json → Str
display env (text s) = s
display env (num n) = n
display env (bool true) = codes "true"
display env (bool false) = codes "false"
display env null = codes "null"
display env undefined = codes "undefined"
display env v = env.display v

unfoldable pub display_all : Env → Items → List Str
unfolding display
display_all env nil = []
display_all env (cons x xs) = display env x ∷ display_all env xs

unfoldable pub sources_of : Env → Json → List Str
unfolding display_all
sources_of env (arr xs) = display_all env xs
sources_of env _ = []

-- `texts.join(", ")`
unfoldable pub join_comma : List Str → Str
join_comma [] = []
join_comma (s ∷ []) = s
join_comma (s ∷ t ∷ ts) = s ++ codes ", " ++ join_comma (t ∷ ts)

unfoldable pub sources_text : List Str → Str
unfolding join_comma
sources_text [] = codes "none provided"
sources_text (s ∷ ss) = join_comma (s ∷ ss)

unfoldable pub research_note_action : Env → Fields → M BridgeExecutionResult
unfolding text_or sources_of sources_text succeeds
research_note_action env payload =
    let query = text_or (get_field payload (codes "query")) (codes "unspecified") in
    let sources = sources_of env (get_field payload (codes "sources")) in
    let note =
      codes "Local research note for \""
      ++ query
      ++ codes "\". Sources considered: "
      ++ sources_text sources
      ++ codes "." in
    pure (
      succeeds (
        field (codes "query") (text query)
          (field (codes "sources") (arr (texts sources)) (field (codes "note") (text note) end))))

unfoldable pub run_research_cell : Env → BridgeRequest → M BridgeExecutionResult
unfolding research_note_action unsupported
run_research_cell env request = elim request.action [
  | research_note ↦ research_note_action env request.payload
  | a ↦ pure (unsupported "research" a)
]

unfoldable pub session_note_action : Fields → M BridgeExecutionResult
unfolding text_or succeeds
session_note_action payload =
    let prompt = text_or (get_field payload (codes "prompt")) [] in
    pure (
      succeeds (
        field (codes "mode") (text (codes "local_session_note")) (
          field (codes "prompt") (text prompt)
            (field (codes "response") (text (codes "MVP session note recorded: " ++ prompt)) end))))

unfoldable pub run_session_cell : Env → BridgeRequest → M BridgeExecutionResult
unfolding session_note_action unsupported
run_session_cell env request = elim request.action [
  | session_note ↦ session_note_action request.payload
  | a ↦ pure (unsupported "session" a)
]
