-- ===== src/Signer/Json.antt =====
-- The JSON values of crates/ciel-signer/src/pea.rs; an object is the list of its members, whose
-- order means nothing.
use ciel_sol.Base.{ℕ, Bool, Option, none, some, List, [], ◌∷◌, String, str_eq, if◌then◌else◌}
use ciel_sol.Base.Int.{ℤ}

-- `serde_json::Value`, with the numbers that the code writes.
mutual
  pub data Value : Type 0 where
    null : Value
    bool : Bool → Value
    number : ℕ → Value
    integer : ℤ → Value
    string : String → Value
    array : Values → Value
    object : Members → Value

  pub data Values : Type 0 where
    no_values : Values
    value_then : Value → Values → Values

  pub data Members : Type 0 where
    no_members : Members
    member : String → Value → Members → Members

abbrev pub get_member : Members → String → Option Value
get_member no_members k = none
get_member (member j v m) k = if str_eq j k then some v else get_member m k

-- `value.get(key)`
abbrev pub get : Value → String → Option Value
get (object m) k = get_member m k
get _ k = none

-- `value.as_str()`
abbrev pub as_str : Value → Option String
as_str (string s) = some s
as_str _ = none

unfoldable pub set_member : Members → String → Value → Members
set_member no_members k v = member k v no_members
set_member (member j w m) k v = if str_eq j k then member k v m else member j w (set_member m k v)

-- `value[key] = v` on an object, all that the code does it on.
abbrev pub set : Value → String → Value → Value
set (object m) k v = object (set_member m k v)
set v k w = v

abbrev pub object_of : List (String × Value) → Members
object_of [] = no_members
object_of ((k, v) ∷ m) = member k v (object_of m)

abbrev pub array_of : List Value → Values
array_of [] = no_values
array_of (v ∷ vs) = value_then v (array_of vs)
