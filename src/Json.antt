-- ===== src/Json.antt =====
-- `serde_json::Value`, with the methods that the program calls. An object is the list of its fields;
-- of a number only matters whether it is an unsigned integer.
use cubelite.Prelude.{ℕ, Bool, Option, none, some, List, [], ◌∷◌, if◌then◌else◌, and_then}
use cubelite.Prelude.Texts.{Text, text_eq}

mutual
  pub data Value : Type 0 where
    null : Value
    boolean : Bool → Value
    unsigned : ℕ → Value
    other_number : Text → Value
    string : Text → Value
    array : Items → Value
    object : Fields → Value

  pub data Items : Type 0 where
    nil : Items
    cons : Value → Items → Items

  pub data Fields : Type 0 where
    end : Fields
    field : Text → Value → Fields → Fields

unfoldable pub to_list : Items → List Value
to_list nil = []
to_list (cons v items) = v ∷ to_list items

unfoldable pub from_list : List Value → Items
from_list [] = nil
from_list (v ∷ values) = cons v (from_list values)

unfoldable pub get_field : Fields → Text → Option Value
get_field end key = none
get_field (field k v rest) key =
    let later = get_field rest key in if text_eq k key then some v else later

-- `get` with a key
unfoldable pub get : Value → Text → Option Value
unfolding get_field
get (object fields) key = get_field fields key
get v key = none

unfoldable pub as_str : Value → Option Text
as_str (string s) = some s
as_str v = none

unfoldable pub as_array : Value → Option (List Value)
unfolding to_list
as_array (array items) = some (to_list items)
as_array v = none

unfoldable pub as_u64 : Value → Option ℕ
as_u64 (unsigned n) = some n
as_u64 v = none

-- `v[key] = new` on an object
unfoldable pub insert_field : Fields → Text → Value → Fields
insert_field end key new = field key new end
insert_field (field k v rest) key new =
    let later = insert_field rest key new in
    if text_eq k key then field k new rest else field k v later

-- A field that is a text
abbrev pub get_str : Value → Text → Option Text
get_str v key = and_then (get v key) as_str

-- `json!` of an object with one field
abbrev pub one_field : Text → Value → Value
one_field key v = object (field key v end)
