-- ===== src/Base/Json.antt =====
-- Python values as `json.loads` returns them.
use Prim.Native.String.{String}
use mathlib.Core.Bool.{Bool}
use mathlib.Core.Option.{Option, none, some}
use mathlib.Core.List.{List, [], ◌∷◌}
use text.Mathlib.Text.{◌==◌}
use llm_api_mind.Base.Tests.{if◌then◌else◌}

-- A number is kept as its JSON text; the program passes numbers on and does not compute with them.
mutual
  pub data Json : Type 0 where
    null : Json
    bool : Bool → Json
    num : String → Json
    str : String → Json
    arr : Items → Json
    obj : Fields → Json

  pub data Items : Type 0 where
    nil : Items
    cons : Json → Items → Items

  pub data Fields : Type 0 where
    end : Fields
    field : String → Json → Fields → Fields

abbrev pub to_list : Items → List Json
to_list nil = []
to_list (cons x xs) = x ∷ to_list xs

abbrev pub of_list : List Json → Items
of_list [] = nil
of_list (x ∷ xs) = cons x (of_list xs)

-- `d.get(key)`, with `none` where the key is absent
abbrev pub get : Fields → String → Option Json
get end key = none
get (field k v rest) key = if k == key then some v else get rest key

-- `d[key] = value`: the key keeps its place
unfoldable pub put : Fields → String → Json → Fields
put end key v = field key v end
put (field k w rest) key v =
    let more = put rest key v in if k == key then field k v rest else field k w more

-- `{**d, **e}`
unfoldable pub updated : Fields → Fields → Fields
unfolding put
updated d end = d
updated d (field k v e) = updated (put d k v) e

-- `None` or a text
abbrev pub text_or_null : Option String → Json
text_or_null none = null
text_or_null (some t) = str t
