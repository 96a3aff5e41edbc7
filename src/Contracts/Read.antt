-- ===== src/Contracts/Read.antt =====
-- Reading a parsed document: property access, arrays and texts, as JavaScript gives them.
use package.text.Mathlib.Text.{starts_with}
use ehfconcept.Prelude.{Bool, ◌||◌, String, List, [], ◌∷◌, ◌==◌, compare_texts, if◌then◌else◌}
use ehfconcept.Contracts.Value.{
  Value, undefined, string, array, object, Items, nil, item, Fields, end, field,
}

abbrev field_of : String → Fields → Value
field_of name end = undefined
field_of name (field k v fs) = let rest = field_of name fs in if k == name then v else rest

-- `value.name`, undefined where the value is no object.
unfoldable pub property : String → Value → Value
property name (object fs) = field_of name fs
property name _ = undefined

abbrev list_of : Items → List Value
list_of nil = []
list_of (item v vs) = v ∷ list_of vs

-- The elements of an array, and none where the value is no array.
unfoldable pub elements : Value → List Value
elements (array vs) = list_of vs
elements _ = []

-- The text of a value that the schema has parsed as one.
unfoldable pub text : Value → String
text (string s) = s
text _ = ""

unfoldable pub texts : List Value → List String
unfolding text
texts [] = []
texts (v ∷ vs) = text v ∷ texts vs

-- `s.includes(part)` on texts.
unfoldable pub contains : String → String → Bool
contains String.[] part = part == ""
contains (String.◌∷◌ c s) part = starts_with (String.◌∷◌ c s) part || contains s part

-- `{ ...fields, [name]: v }`
unfoldable pub set_property : String → Value → Fields → Fields
set_property name v end = field name v end
set_property name v (field k w fs) =
    let rest = set_property name v fs in if k == name then field k v fs else field k w rest

-- `{ ...base, ...more }`
unfoldable pub assign_fields : Fields → Fields → Fields
unfolding set_property
assign_fields base end = base
assign_fields base (field name v fs) = assign_fields (set_property name v base) fs
