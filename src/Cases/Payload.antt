-- ===== src/Cases/Payload.antt =====
-- packages/case-store/src/index.ts: reading the payload of a command, and the errors of the case store.
use Prim.Native.String.{◌++◌ as ◌<>◌, slice, len}
use text.Mathlib.Text.{starts_with}
use ehfconcept.Prelude.{
  ℕ, String, List, [], ◌∷◌, Option, none, some, leb, length, ◌==◌, compare_texts, if◌then◌else◌,
  includes, Result, ok, err, ◌>>=◌,
}
use ehfconcept.Contracts.Value.{Value, undefined, null, string, array, object, Items, nil, item}

-- What a transaction of the case store throws: a `CaseStoreError` with its code and its status, a
-- schema error, a unique violation of the database, or another error of the database.
pub data Failure : Type 0 where
  case_error : String → ℕ → Failure
  schema_error unique_violation database_error : Failure

-- `z.string().min(1)`
unfoldable pub required_string : Value → Result Failure String
required_string (string s) = if s == "" then err schema_error else ok s
required_string _ = err schema_error

unfoldable pub optional_string : Value → Result Failure (Option String)
unfolding required_string
optional_string undefined = ok none
optional_string null = ok none
optional_string v = required_string v >>= λ s. ok (some s)

-- `v ?? d`
unfoldable pub coalesce_value : Value → Value → Value
coalesce_value undefined d = d
coalesce_value null d = d
coalesce_value v d = v

unfoldable pub strings_of : Items → Result Failure (List String)
unfolding required_string
strings_of nil = ok []
strings_of (item v vs) =
    let rest = strings_of vs in required_string v >>= λ s. rest >>= λ ss. ok (s ∷ ss)

unfoldable pub string_array : ℕ → Value → Result Failure (List String)
unfolding strings_of
string_array minimum (array vs) =
    strings_of vs >>= λ ss. if leb minimum (length ss) then ok ss else err schema_error
string_array minimum _ = err schema_error

-- `stringArray(v ?? [], ..., minimum)`
unfoldable pub string_array_or_empty : ℕ → Value → Result Failure (List String)
unfolding string_array coalesce_value
string_array_or_empty minimum v = string_array minimum (coalesce_value v (array nil))

-- `z.record(z.string(), z.unknown())`
unfoldable pub object_value : Value → Result Failure Value
object_value (object fs) = ok (object fs)
object_value _ = err schema_error

-- `z.enum(names)`
unfoldable pub enum_value : List String → Value → Result Failure String
enum_value names (string s) = if includes names s then ok s else err schema_error
enum_value names _ = err schema_error

-- `JSON.stringify(v)` as a parameter of a `jsonb` column: what is undefined becomes a null.
unfoldable pub json_column : Value → Option Value
json_column undefined = none
json_column v = some v

unfoldable pub normalize_digest : String → String
normalize_digest value = if starts_with value "sha256:" then slice value 7 (len value) else value

-- `opaqueId(prefix)` with the identifier that `randomUUID` gives.
unfoldable pub opaque_id : String → String → String
opaque_id prefix uuid = prefix <> "_" <> uuid

-- `optionalString(p.id) ?? opaqueId(prefix)`
unfoldable pub given_or_fresh : Option String → String → String → String
unfolding opaque_id
given_or_fresh none prefix uuid = opaque_id prefix uuid
given_or_fresh (some id) prefix uuid = id
