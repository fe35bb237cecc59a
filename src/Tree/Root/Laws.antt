-- ===== src/Tree/Root/Laws.antt =====
-- A new root and the schema that it keeps.
use pmem.Prelude.{take-length, ℕ, ◌≡◌, refl, ◌∙◌, false, none, some, List, arith, map, ◌==◌}
use pmem.Prelude.Result.{allocation_error, ok}
use pmem.Oid.{Oid, oid_null, oid_eq}
use pmem.Memory.Objects.{uninit, root, buffer, TreeRoot, Object, State}
use pmem.Memory.Access.{load, store_lem, set_object}
use pmem.Memory.Ends
use pmem.Memory.Ends.{Ends, returns, throws}
use pmem.Memory.Pmemobj.{Pmemobj, inside, reserve}
use pmem.Ptr.Location.{root_schema}
use pmem.Ptr.Pointer.Allocate.{Makes, allocate_at-Ends}
use pmem.Text.PersistentBuffer
use pmem.PersistentVector.Standing.{update_self, update_ne, oid_eq_comm, ne_of_free, get_lem}
use pmem.Tree.Schema.{Json, TreeSchema, json_str, list_value}
use pmem.Tree.Schema.Laws.{init-json_str}
use pmem.Tree.Node.{buffer_type}
use pmem.Tree.Root.{
  tree_root_tag, root_type, sizeof_root, this_root, as_buffer, text_of, constructor, wrap,
}

-- The object of a text.
abbrev schema_buffer : List ℕ → Object
schema_buffer text = record {
  type_num = buffer_type;
  size = PersistentBuffer.sizeof_buffer;
  content = buffer (PersistentBuffer.buffer_of text);
}

pub text_of_lem :
    (text : List ℕ) (s : State) → text_of (PersistentBuffer.buffer_of text) s ≡ (ok text, s)
unfolding text_of
text_of_lem text s = ground (arith, take-length text)

pub this_root_lem :
    (p : Oid) (o : Object) (r : TreeRoot) (s : State)
    → s.heap p ≡ some o
    → o.content ≡ root r
    → this_root p s ≡ (ok r, s)
unfolding this_root load
this_root_lem p o r s at is = ground arith

module _ (lib : Pmemobj) (json : Json) (schema : TreeSchema) (p : Oid) (s : State) where
  abbrev text : List ℕ
  text = json_str json schema

  abbrev new_root : Oid → TreeRoot
  new_root q = record { tag = tree_root_tag; node = oid_null; schema = q }

  abbrev root_object : Oid → Object
  root_object q = record { type_num = root_type; size = sizeof_root; content = root (new_root q) }

  -- The root when its members are set.
  abbrev begun : State
  begun = set_object p (some (root_object oid_null)) (reserve p sizeof_root root_type s)

  apart : (q : Oid) → begun.heap q ≡ none → oid_eq p q ≡ false
  apart q free = ne_of_free begun.heap q p (root_object oid_null) free (update_self _ _ _)

  makes :
      PersistentBuffer.HasRoom lib.usable_size text
      → Makes lib
          (lib.pool_by_ptr (inside p) s.opened)
          (PersistentBuffer.constructor lib.usable_size buffer_type PersistentBuffer.char_pointer
            text)
          begun
          (λ q t. (t.heap q ≡ some (schema_buffer text)) × (t.heap p ≡ some (root_object oid_null)))
          (λ e t. e ≡ allocation_error)
  unfolding PersistentBuffer.constructor
  makes room q free alive lies =
      let start = reserve q PersistentBuffer.sizeof_buffer buffer_type begun in
      rw (PersistentBuffer.make_lem lib.usable_size buffer_type text q start room) (
        rw
          (store_lem q (buffer (PersistentBuffer.buffer_of text))
            (record {
              type_num = buffer_type;
              size = PersistentBuffer.sizeof_buffer;
              content = uninit;
            })
            start (update_self _ _ _))
          (returns (
            update_self _ _ _,
            update_ne _ q p _ (apart q free) ∙ update_ne _ q p _ (apart q free) ∙ update_self _ _ _,
          )))

  wrap_lem :
      (q : Oid) (t : State)
      → t.heap p ≡ some (root_object q)
      → t.heap q ≡ some (schema_buffer text)
      → json.parse (json.print schema.keys) ≡ ok (list_value (map ok schema.keys))
      → wrap lib json p t ≡ (ok schema, t)
  unfolding wrap as_buffer
  wrap_lem q t at_p at_q parses = rw (this_root_lem p (root_object q) (new_root q) t at_p refl) (
      rw (get_lem lib buffer_type q (schema_buffer text) t at_q refl)
        (rw (text_of_lem text t) (rw (init-json_str json schema parses) refl)))

  -- If the parser reads what the printer writes for the keys of the schema, the root's address
  -- lies in an open pool, and the text fits, with its length in front, into each block that
  -- libpmemobj gives where `sizeof(PersistentBuffer)` bytes are asked for:
  -- `TreeRoot::Constructor::make` on a new object ends in a state in which a `TreeObject` on that
  -- root has this schema, or it throws an allocation error.
  pub wrap-make :
      PersistentBuffer.HasRoom lib.usable_size text
      → (lib.pool_by_ptr (inside p) s.opened == 0) ≡ false
      → json.parse (json.print schema.keys) ≡ ok (list_value (map ok schema.keys))
      → Ends
          (λ _ t. wrap lib json p t ≡ (ok schema, t))
          (λ e t. e ≡ allocation_error)
          ((constructor lib json schema).make p (reserve p sizeof_root root_type s))
  unfolding constructor
  wrap-make room mapped parses =
      rw
        (store_lem p (root (new_root oid_null))
          (record { type_num = root_type; size = sizeof_root; content = uninit })
          (reserve p sizeof_root root_type s) (update_self _ _ _))
        (Ends.mono
          (allocate_at-Ends lib (root_schema p) begun (update_self _ _ _) refl mapped
            (PersistentBuffer.constructor lib.usable_size buffer_type PersistentBuffer.char_pointer
              text)
            (λ q t. t.heap q ≡ some (schema_buffer text)) (λ e t. e ≡ allocation_error) refl refl
            (makes room))
          (λ a t (q, v, placed, is). rw is (
            wrap_lem q (set_object p (some (root_object q)) v) (update_self _ _ _)
              (update_ne _ p q _ (oid_eq_comm p q (apart q placed.0)) ∙ placed.2) parses))
          (λ e t h. h))
