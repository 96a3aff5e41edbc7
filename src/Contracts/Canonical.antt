-- ===== src/Contracts/Canonical.antt =====
-- packages/contracts/src/index.ts: `byCodeUnit`, `canonicalize`, `stableDigest`.
use Prim.Native.Nat.{◌%◌}
use Prim.Native.Char.{code}
use ehfconcept.Prelude.{
  ℕ, ◌+◌, ◌-◌, ◌*◌, ◌/◌, Bool, true, false, ◌&&◌, String, List, [], ◌∷◌, ◌++◌, Option, none, some,
  ltb, leb, if◌then◌else◌,
}
use ehfconcept.Contracts.Value.{
  Value, undefined, array, object, Items, nil, item, Fields, end, field,
}

-- The UTF-16 code units of one code point, and of a text.
pub code_units_of : ℕ → List ℕ
code_units_of c =
    if ltb c 0x10000
    then c ∷ []
    else (0xd800 + (c - 0x10000) / 0x400) ∷ (0xdc00 + (c - 0x10000) % 0x400) ∷ []

pub code_units : String → List ℕ
unfolding code_units_of
code_units String.[] = []
code_units (String.◌∷◌ c s) = code_units_of (code c) ++ code_units s

-- `left < right` on lists of units: a proper prefix is smaller.
pub less_units : List ℕ → List ℕ → Bool
less_units [] [] = false
less_units [] (y ∷ ys) = true
less_units (x ∷ xs) [] = false
less_units (x ∷ xs) (y ∷ ys) =
    let rest = less_units xs ys in if ltb x y then true else if ltb y x then false else rest

-- What the comparator `byCodeUnit` gives: before (-1), same (0) or after (1).
pub data Order : Type 0 where
  before same after : Order

unfoldable pub by_code_unit : String → String → Order
unfolding code_units less_units
by_code_unit left right =
    if less_units (code_units left) (code_units right)
    then before
    else if less_units (code_units right) (code_units left)
    then after
    else same

-- The array index that a property name spells (`"0"`, `"17"`, but not `"007"`), if it spells one.
-- The greatest index is 2^32 - 2.
index_from : ℕ → String → Option ℕ
index_from n String.[] = if ltb n 0xffffffff then some n else none
index_from n (String.◌∷◌ c s) =
    let rest = index_from (n * 10 + (code c - 48)) s in
    if leb 48 (code c) && leb (code c) 57 then rest else none

pub array_index : String → Option ℕ
unfolding index_from
array_index String.[] = none
array_index (String.◌∷◌ c String.[]) =
    if leb 48 (code c) && leb (code c) 57 then some (code c - 48) else none
array_index (String.◌∷◌ c s) =
    if leb 49 (code c) && leb (code c) 57 then index_from (code c - 48) s else none

-- A new property of an object: array indices come first, in numeric order, the other names after
-- them in the order in which they were added.
comes_before : Option ℕ → Option ℕ → Bool
comes_before none k = false
comes_before (some i) none = true
comes_before (some i) (some j) = ltb i j

define : String → Value → Fields → Fields
unfolding comes_before array_index
define k v end = field k v end
define k v (field j w fs) =
    let rest = define k v fs in
    if comes_before (array_index k) (array_index j)
    then field k v (field j w fs)
    else field j w rest

add_all : Fields → Fields → Fields
unfolding define
add_all acc end = acc
add_all acc (field k v fs) = add_all (define k v acc) fs

-- `Object.fromEntries`, for entries with distinct names.
pub from_entries : Fields → Fields
unfolding add_all
from_entries entries = add_all end entries

-- `.sort(([left], [right]) => byCodeUnit(left, right))`, which is stable.
insert_entry : String → Value → Fields → Fields
insert_entry k v end = field k v end
insert_entry k v (field j w fs) =
    let rest = insert_entry k v fs in
    elim (by_code_unit j k) [ after ↦ field k v (field j w fs) | _ ↦ field j w rest ]

pub sort_entries : Fields → Fields
unfolding insert_entry by_code_unit
sort_entries end = end
sort_entries (field k v fs) = insert_entry k v (sort_entries fs)

-- `.filter(([, nested]) => nested !== undefined)`.
is_defined : Value → Bool
is_defined undefined = false
is_defined _ = true

pub drop_undefined : Fields → Fields
unfolding is_defined
drop_undefined end = end
drop_undefined (field k v fs) =
    let rest = drop_undefined fs in if is_defined v then field k v rest else rest

-- The source maps the values after the filter and the sort; mapping them first gives the same
-- entries, since `canonicalize` keeps names and keeps what is undefined undefined.
unfoldable mutual
  unfolding from_entries sort_entries drop_undefined

  pub canonicalize : Value → Value
  canonicalize (array xs) = array (canonical_items xs)
  canonicalize (object fs) =
      object (from_entries (sort_entries (drop_undefined (canonical_fields fs))))
  canonicalize v = v

  pub canonical_items : Items → Items
  canonical_items nil = nil
  canonical_items (item v xs) = item (canonicalize v) (canonical_items xs)

  pub canonical_fields : Fields → Fields
  canonical_fields end = end
  canonical_fields (field k v fs) = field k (canonicalize v) (canonical_fields fs)

-- What the runtime gives: `JSON.stringify` and the hexadecimal SHA-256 of a text.
pub record Hashing : Type 0 where
  pub stringify : Value → String
  pub sha256 : String → String

unfoldable pub canonical_json : Hashing → Value → String
canonical_json h v = h.stringify (canonicalize v)

unfoldable pub stable_digest : Hashing → Value → String
unfolding canonical_json
stable_digest h v = h.sha256 (canonical_json h v)
