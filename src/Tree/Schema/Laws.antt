-- ===== src/Tree/Schema/Laws.antt =====
-- Which insertion keys a schema accepts, and how a schema is stored.
use pmem.Prelude.{
  ℕ, ap, sym, ◌∙◌, ◌++◌, append-nil, append_assoc, ◌≡◌, ◌↔◌, refl, some, List, [], ◌∷◌, String,
  arith, map, length,
}
use pmem.Prelude.Result.{Error, user_error, Result, ok, err}
use pmem.Tree.Schema.{
  StringDict, KeyType, find, prepend, ordered, read_keys, schema_of, parsed, no_keys, Value,
  other_value, Json, TreeSchema, process_insert_key, init, json_str, list_value,
}

-- The chain names these keys in their order, each with the value that the request gives it.
abbrev pub Answers : List String → StringDict → KeyType → Type 0
Answers [] inkey [] = Unit {0}
Answers (key ∷ keys) inkey ((k, v) ∷ chain) =
    (key ≡ k) × (find key inkey ≡ some v) × Answers keys inkey chain
Answers _ inkey _ = ⊥

ordered_iff :
    (keys : List String) (inkey : StringDict) (chain : KeyType)
    → (ordered keys inkey ≡ ok chain) ↔ Answers keys inkey chain
unfolding ordered prepend
ordered_iff [] inkey [] = (λ h. tt, λ h. refl)
ordered_iff [] inkey (e ∷ chain) = (λ h. absurd (cc h), λ h. absurd h)
ordered_iff (key ∷ keys) inkey [] = (λ h. ground (arith, h), λ h. absurd h)
ordered_iff (key ∷ keys) inkey ((k, v) ∷ chain) = (
  λ h. ground (arith, h, ordered_iff keys inkey chain),
  λ h. ground (arith, h, ordered_iff keys inkey chain),
)

-- `processInsertKey` gives a chain exactly if the insertion key has as many pairs as the schema
-- has keys, and the chain has the schema's keys in their order, each with the value that the
-- insertion key gives it.
pub process_insert_key_iff :
    (schema : TreeSchema) (inkey : StringDict) (chain : KeyType)
    → (process_insert_key schema inkey ≡ ok chain)
      ↔ ((length inkey ≡ length schema.keys) × Answers schema.keys inkey chain)
unfolding process_insert_key
process_insert_key_iff schema inkey chain = (
  λ h. ground (arith, h, ordered_iff schema.keys inkey chain),
  λ h. ground (arith, h, ordered_iff schema.keys inkey chain),
)

ordered-error :
    (keys : List String) (inkey : StringDict) (e : Error)
    → ordered keys inkey ≡ err e
    → e ≡ user_error
unfolding ordered prepend
ordered-error [] inkey e h = absurd (cc h)
ordered-error (key ∷ keys) inkey e h = ground (arith, h, ordered-error keys inkey e)

-- Any error of `processInsertKey` is a `UserError`.
pub process_insert_key-error :
    (schema : TreeSchema) (inkey : StringDict) (e : Error)
    → process_insert_key schema inkey ≡ err e
    → e ≡ user_error
unfolding process_insert_key
process_insert_key-error schema inkey e h = ground (arith, h, ordered-error schema.keys inkey e)

read_keys-map : (keys more : List String) → read_keys keys (map ok more) ≡ ok (keys ++ more)
unfolding read_keys
read_keys-map keys [] = ap ok (sym (append-nil keys))
read_keys-map keys (key ∷ more) =
    read_keys-map (keys ++ key ∷ []) more ∙ ap ok (append_assoc keys (key ∷ []) more)

-- The members that are read are strings, in their order.
read_keys-ok :
    (keys : List String) (members : List (Result String)) (all : List String)
    → read_keys keys members ≡ ok all
    → (more : List String) × (members ≡ map ok more) × (all ≡ keys ++ more)
unfolding read_keys
read_keys-ok keys [] all h = ([], refl, cc (h, append-nil keys))
read_keys-ok keys (err e ∷ members) all h = absurd (cc h)
read_keys-ok keys (ok key ∷ members) all h =
    let (more, same, is) = read_keys-ok (keys ++ key ∷ []) members all h in
    (key ∷ more, ap (λ ms. ok key ∷ ms) same, is ∙ append_assoc keys (key ∷ []) more)

keys_of :
    {schema : TreeSchema} (r : Result (List String)) → schema_of r ≡ ok schema → r ≡ ok schema.keys
keys_of (ok keys) h = cc h
keys_of (err e) h = absurd (cc h)

parsed_ok :
    (old schema : TreeSchema) (r : Result Value)
    → parsed old r ≡ ok schema
    → r ≡ ok (list_value (map ok schema.keys))
unfolding parsed
parsed_ok old schema (ok (list_value members)) h =
    let (more, same, is) = read_keys-ok [] members schema.keys (keys_of (read_keys [] members) h) in
    ap (λ ms. ok (list_value ms)) (same ∙ ap (λ ks. map ok ks) (sym is))
parsed_ok old schema (ok other_value) h = absurd (cc h)
parsed_ok old schema (err e) h = absurd (cc h)

parsed_all :
    (old schema : TreeSchema) → parsed old (ok (list_value (map ok schema.keys))) ≡ ok schema
unfolding parsed
parsed_all old schema = rw (read_keys-map [] schema.keys) refl

-- `init` on a schema that may have keys gives a schema exactly if the text is parsed as a list
-- whose members are strings, and then its keys are these strings in their order.
pub init_iff :
    (json : Json) (old schema : TreeSchema) (text : List ℕ)
    → (init json old text ≡ ok schema) ↔ (json.parse text ≡ ok (list_value (map ok schema.keys)))
unfolding init
init_iff json old schema text =
    (λ h. parsed_ok old schema (json.parse text) h, λ h. rw h (parsed_all old schema))

-- If the parser reads what the printer writes for the keys of a schema, then the text that is
-- stored for the schema is read as that schema.
pub init-json_str :
    (json : Json) (schema : TreeSchema)
    → json.parse (json.print schema.keys) ≡ ok (list_value (map ok schema.keys))
    → init json no_keys (json_str json schema) ≡ ok schema
unfolding json_str
init-json_str json schema e = (init_iff json no_keys schema (json_str json schema)).1 e
