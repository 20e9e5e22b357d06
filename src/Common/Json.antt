-- ===== src/Common/Json.antt =====
-- `serde_json::Value` as its documentation has it: the six kinds of value, the map of an object as
-- its entries, and the accessors that the program calls. A number is kept as its text.
use mathlib.Core.Path.{◌≡◌, refl}
use mathlib.Core.Bool.{Bool}
use mathlib.Core.Option.{Option, none, some}
use native.Mathlib.Omega.{arith}
use agent_kuibysheff.Common.Test.{if◌then◌else◌}
use agent_kuibysheff.Common.Equality.{Text, ◌==◌, nat_eq, list_eq, ==_refl}

mutual
  pub data Value : Type 0 where
    null : Value
    bool : Bool → Value
    number : Text → Value
    string : Text → Value
    array : Items → Value
    object : Fields → Value

  pub data Items : Type 0 where
    nil : Items
    cons : Value → Items → Items

  pub data Fields : Type 0 where
    end : Fields
    field : Text → Value → Fields → Fields

unfoldable pub get_field : Fields → Text → Option Value
get_field end key = none
get_field (field k v fs) key = if k == key then some v else get_field fs key

-- `Value::get` with a key: only an object has entries.
unfoldable pub get : Value → Text → Option Value
unfolding get_field
get (object fs) key = get_field fs key
get _ key = none

unfoldable pub remove_field : Fields → Text → Fields
remove_field end key = end
remove_field (field k v fs) key =
    let rest = remove_field fs key in if k == key then rest else field k v rest

-- `Map::insert`: the value of a key that is there is replaced.
unfoldable pub insert_field : Fields → Text → Value → Fields
insert_field end key value = field key value end
insert_field (field k v fs) key value =
    let rest = insert_field fs key value in if k == key then field k value fs else field k v rest

abbrev pub as_str : Value → Option Text
as_str (string t) = some t
as_str _ = none

abbrev pub as_bool : Value → Option Bool
as_bool (bool b) = some b
as_bool _ = none

abbrev pub as_array : Value → Option Items
as_array (array xs) = some xs
as_array _ = none

pub get_field-insert :
    (fs : Fields) (key : Text) (v : Value) → get_field (insert_field fs key v) key ≡ some v
unfolding get_field insert_field
get_field-insert end key v = rw (==_refl key)
get_field-insert (field k w fs) key v = ground (arith, get_field-insert fs key v)

pub get_field-remove : (fs : Fields) (key : Text) → get_field (remove_field fs key) key ≡ none
unfolding get_field remove_field
get_field-remove end key = refl
get_field-remove (field k w fs) key = ground (arith, get_field-remove fs key)
