-- ===== src/Tree/Schema.antt =====
-- `TreeSchema` (src/pmem/tree/TreeSchema.h, .cc): the keys of an insertion and their order.
pub mod Laws
use pmem.Prelude.{
  ℕ, Bool, true, false, Option, none, some, List, [], ◌∷◌, ◌++◌, String, length, map, ◌≡◌, ◌==◌,
  if◌then◌else◌,
}
use pmem.Prelude.Result.{Error, user_error, Result, ok, err}
use text.Mathlib.Text

-- `StringDict`: a map of strings, whose keys are different
abbrev pub StringDict : Type 0
StringDict = List (String × String)

-- `TreeNode::KeyType`
abbrev pub KeyType : Type 0
KeyType = List (String × String)

abbrev pub same : String → String → Bool
same a b = Text.◌==◌ a b

-- `request.find(key)`, with `none` for `end()`
unfoldable pub find : String → StringDict → Option String
find key [] = none
find key ((k, v) ∷ request) = if same k key then some v else find key request

-- A parsed JSON text: a list, with the conversion of each member to a string, or another value.
pub data Value : Type 0 where
  list_value : List (Result String) → Value
  other_value : Value

-- `eckit::JSONParser` and `eckit::JSON`
pub record Json : Type 0 where
  pub parse : List ℕ → Result Value
  pub print : List String → List ℕ

pub record TreeSchema : Type 0 where
  pub keys : List String

prepend : {A : Type 0} → A → Result (List A) → Result (List A)
prepend a (ok rest) = ok (a ∷ rest)
prepend a (err e) = err e

-- The loop of `init`, with the keys so far.
unfoldable pub read_keys : List String → List (Result String) → Result (List String)
read_keys keys [] = ok keys
read_keys keys (ok key ∷ members) = read_keys (keys ++ key ∷ []) members
read_keys keys (err e ∷ members) = err e

-- `keys_.clear()`
abbrev pub clear : TreeSchema → TreeSchema
clear schema = record schema { keys = [] }

abbrev schema_of : Result (List String) → Result TreeSchema
schema_of (ok keys) = ok (record { keys = keys })
schema_of (err e) = err e

parsed : TreeSchema → Result Value → Result TreeSchema
unfolding read_keys
parsed schema (ok (list_value members)) = schema_of (read_keys (clear schema).keys members)
parsed schema (ok other_value) = err user_error
parsed schema (err e) = err e

-- `init`, on a schema that may have keys. Its callers are constructors, so that there is no schema
-- where it throws.
unfoldable pub init : Json → TreeSchema → List ℕ → Result TreeSchema
unfolding parsed
init json schema text = parsed schema (json.parse text)

-- What the constructors start from.
abbrev pub no_keys : TreeSchema
no_keys = record { keys = [] }

-- The loop of `processInsertKey`.
unfoldable pub ordered : List String → StringDict → Result KeyType
unfolding find prepend
ordered [] inkey = ok []
ordered (key ∷ keys) inkey =
    let rest = ordered keys inkey in
    elim (find key inkey) [ none ↦ err user_error | some value ↦ prepend (key, value) rest ]

-- `processInsertKey`
unfoldable pub process_insert_key : TreeSchema → StringDict → Result KeyType
unfolding ordered
process_insert_key schema inkey =
    if length inkey == length schema.keys then ordered schema.keys inkey else err user_error

-- `json_str`
unfoldable pub json_str : Json → TreeSchema → List ℕ
json_str json schema = json.print schema.keys
