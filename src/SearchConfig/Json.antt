-- ===== src/SearchConfig/Json.antt =====
-- Documents of JSON as Python reads them: an object is a dict, `true` and `false` are also the
-- integers 1 and 0, and a value that is there may be tested for truth.
use web_search.Prelude.{
  zero, suc, Bool, true, false, not, Option, none, some, List, [], ◌∷◌, if◌then◌else◌, is_empty,
  nat_eq, list_eq, list_beq, Text, pair_eq, ℤ, pos, negsuc,
}

mutual
  pub data Json : Type 0 where
    null : Json
    boolean : Bool → Json
    number : ℤ → Json
    real : (is_zero : Bool) → Json
    string : Text → Json
    array : JsonItems → Json
    object : JsonFields → Json

  pub data JsonItems : Type 0 where
    no_items : JsonItems
    item : Json → JsonItems → JsonItems

  pub data JsonFields : Type 0 where
    no_fields : JsonFields
    field : Text → Json → JsonFields → JsonFields

abbrev pub items_of : JsonItems → List Json
items_of no_items = []
items_of (item value rest) = value ∷ items_of rest

-- `d.get(key)`
unfoldable pub get_field : Text → JsonFields → Option Json
get_field key no_fields = none
get_field key (field k value rest) =
    let later = get_field key rest in if list_beq k key then some value else later

abbrev pub or_null : Option Json → Json
or_null none = null
or_null (some value) = value

abbrev pub get_value : Text → JsonFields → Json
get_value key fields = or_null (get_field key fields)

abbrev pub is_null : Json → Bool
is_null null = true
is_null _ = false

-- `bool(value)`
abbrev pub truth : Json → Bool
truth null = false
truth (boolean b) = b
truth (number (pos zero)) = false
truth (number (pos (suc n))) = true
truth (number (negsuc n)) = true
truth (real is_zero) = not is_zero
truth (string t) = not (is_empty t)
truth (array no_items) = false
truth (array (item value rest)) = true
truth (object no_fields) = false
truth (object (field key value rest)) = true

-- `isinstance(value, int)`, with the number.
abbrev pub as_int : Json → Option ℤ
as_int (boolean true) = some (pos 1)
as_int (boolean false) = some (pos 0)
as_int (number n) = some n
as_int _ = none

abbrev pub as_string : Json → Option Text
as_string (string t) = some t
as_string _ = none

abbrev pub as_list : Json → Option (List Json)
as_list (array values) = some (items_of values)
as_list _ = none

abbrev pub as_object : Json → Option JsonFields
as_object (object fields) = some fields
as_object _ = none
