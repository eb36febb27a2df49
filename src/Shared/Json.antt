-- ===== src/Shared/Json.antt =====
-- JSON objects as the services write and read them on the message bus (encoding/json is a parameter),
-- with the rules by which a struct is filled: a key that is missing or null leaves the zero value, and
-- a value of another kind is an error.
use efir.Prelude.{String, List, Bool, false, Option, none, some, ◌≡◌, string_eq}
use efir.Prelude.Keyed.{Map, lookup}

pub data Value : Type 0 where
  null : Value
  text : String → Value
  flag : Bool → Value
  texts : List String → Value

abbrev pub Object : Type 0
Object = Map String Value

-- What encoding/json writes of an object, and the object that it reads, its keys spelled as in the
-- struct's tags.
pub record Encoding : Type 0 where
  pub marshal : Object → Option String
  pub unmarshal : String → Option Object

-- The object is written, and is read back as it was written.
abbrev pub IsWritten : Encoding → Object → String → Type 0
IsWritten e o data' = (e.marshal o ≡ some data') × (e.unmarshal data' ≡ some o)

unfoldable pub string_field : String → Object → Option String
string_field key o = elim (lookup key o) [
  | none ↦ some ""
  | some null ↦ some ""
  | some (text s) ↦ some s
  | some _ ↦ none
]

unfoldable pub bool_field : String → Object → Option Bool
bool_field key o = elim (lookup key o) [
  | none ↦ some false
  | some null ↦ some false
  | some (flag b) ↦ some b
  | some _ ↦ none
]

-- A field of type any.
unfoldable pub any_field : String → Object → Value
any_field key o = elim (lookup key o) [ none ↦ null | some v ↦ v ]
