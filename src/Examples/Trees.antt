-- ===== src/Examples/Trees.antt =====
-- A schema of two keys.
use pmem.Prelude.{◌≡◌, ◌↔◌, refl, [], ◌∷◌, length, arith}
use pmem.Prelude.Result.{ok}
use pmem.Prelude.Result.{allocation_error}
use pmem.Oid.{Oid}
use pmem.Memory.Objects.{State}
use pmem.Memory.Ends.{Ends}
use pmem.Memory.Pmemobj.{reserve}
use pmem.Tree.Root.{wrap, constructor, sizeof_root, root_type}
use pmem.Tree.Root.Laws.{wrap-make}
use pmem.Examples.Library.{lib, empty_state}
use pmem.Tree.Schema.{
  json_str, StringDict, KeyType, Json, TreeSchema, list_value, process_insert_key, init,
}
use pmem.Tree.Schema.Laws.{Answers, process_insert_key_iff, init_iff}

abbrev schema : TreeSchema
schema = record { keys = "type" ∷ "name" ∷ [] }

abbrev inkey : StringDict
inkey = ("name", "spam") ∷ ("type", "abcd") ∷ []

abbrev chain : KeyType
chain = ("type", "abcd") ∷ ("name", "spam") ∷ []

process_insert_key_example :
    (process_insert_key schema inkey ≡ ok chain)
    ↔ ((length inkey ≡ length schema.keys) × Answers schema.keys inkey chain)
process_insert_key_example = process_insert_key_iff schema inkey chain

-- A printer and a parser of this one schema.
abbrev json : Json
json = record {
  parse = λ text. ok (list_value (ok "type" ∷ ok "name" ∷ []));
  print = λ keys. 91 ∷ 93 ∷ [];
}

-- A schema with keys of its own is read anew.
abbrev old_schema : TreeSchema
old_schema = record { keys = "class" ∷ [] }

init_example :
    (init json old_schema (91 ∷ 93 ∷ []) ≡ ok schema)
    ↔ (json.parse (91 ∷ 93 ∷ []) ≡ ok (list_value (ok "type" ∷ ok "name" ∷ [])))
init_example = init_iff json old_schema schema (91 ∷ 93 ∷ [])

abbrev new_state : State
new_state = record empty_state { opened = 3 ∷ [] }

abbrev root_at : Oid
root_at = record { pool_uuid_lo = 7; off = 500 }

wrap_example :
    Ends
      (λ _ t. wrap lib json root_at t ≡ (ok schema, t))
      (λ e t. e ≡ allocation_error)
      ((constructor lib json schema).make root_at (reserve root_at sizeof_root root_type new_state))
unfolding json_str
wrap_example = wrap-make lib json schema root_at new_state (λ x. omega arith) refl refl
