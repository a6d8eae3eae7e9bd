-- ===== src/Types/Values.antt =====
-- JSON values, as `JSON.parse` returns them; `undefined` is a value that an object may also hold
-- before it is written. A number is kept as its text.
use tool_flow.Prelude.{Bool, Str, List, [], ◌∷◌, ◌==◌, if◌then◌else◌, str_eq}

mutual
  pub data Json : Type 0 where
    null : Json
    undefined : Json
    bool : Bool → Json
    num : Str → Json
    text : Str → Json
    arr : Items → Json
    obj : Fields → Json

  pub data Items : Type 0 where
    nil : Items
    cons : Json → Items → Items

  pub data Fields : Type 0 where
    end : Fields
    field : Str → Json → Fields → Fields

-- `value[key]`
unfoldable pub get_field : Fields → Str → Json
get_field end k = undefined
get_field (field j v fs) k = if j == k then v else get_field fs k

unfoldable pub texts : List Str → Items
texts [] = nil
texts (s ∷ ss) = cons (text s) (texts ss)
