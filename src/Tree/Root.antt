-- ===== src/Tree/Root.antt =====
-- `TreeRoot`, `TreeObject` and `TreePool` (src/pmem/tree/TreeRoot.h, .cc, TreePool.h, .cc).
pub mod Laws
pub mod Planted
pub mod Plant
pub mod Search
pub mod Keeps
use pmem.Prelude.{ℕ, Bool, not, ◌&&◌, List, [], ◌∷◌, String, take, leb, length, if◌then◌else◌}
use pmem.Prelude.Result.{assertion_failed, fault}
use pmem.Oid.{Oid, oid_null, null}
use pmem.Memory.Objects.{Content, Buffer, buffer, root, TreeRoot, PersistentPool}
use pmem.Memory.Access.{M, pure, throw, lift, assert, load, store, ◌>>=◌, ◌>>◌}
use pmem.Memory.Pmemobj.{Pmemobj, inside}
use pmem.Ptr.Constructor.{AtomicConstructor}
use pmem.Ptr.Location.{root_node, root_schema, write}
use pmem.Ptr.Pointer.{get, allocate_at}
use pmem.Text.PersistentBuffer
use pmem.Pool.Registry.{pool_from_pointer}
use pmem.Pool.Files.{Files}
use pmem.Pool.PersistentPool.{open_pool, create_pool, get_root}
use pmem.Tree.Schema.{
  StringDict, KeyType, same, Json, TreeSchema, init, no_keys, process_insert_key, json_str,
}
use pmem.Tree.Node.{buffer_type, fixed, allocate_nested, node_at}
use pmem.Tree.Node.Add.{add_node}
use pmem.Tree.Node.Lookup
use pmem.Tree.Node.Print.{print_tree}

-- `TreeRootTag`, `POBJ_ROOT_TYPE_NUM` and `sizeof(TreeRoot)`
abbrev pub tree_root_tag : String
tree_root_tag = "999TREE9"

abbrev pub root_type : ℕ
root_type = 0

abbrev pub sizeof_root : ℕ
sizeof_root = 40

abbrev as_root : Content → M TreeRoot
as_root (root r) = pure r
as_root _ = throw fault

-- The root that a method works on.
unfoldable pub this_root : Oid → M TreeRoot
unfolding load
this_root p = do o ← load p; as_root o.content

-- `valid`
unfoldable pub valid : TreeRoot → Bool
valid r = same r.tag tree_root_tag && not (null r.schema)

unfoldable pub as_buffer : Content → M Buffer
as_buffer (buffer b) = pure b
as_buffer _ = throw fault

-- The `size()` bytes at `data()`.
pub text_of : Buffer → M (List ℕ)
text_of b =
    if leb (PersistentBuffer.size b) (length (PersistentBuffer.bytes b))
    then pure (take (PersistentBuffer.size b) (PersistentBuffer.bytes b))
    else throw fault

module _ (lib : Pmemobj) where
  -- `TreeRoot::Constructor`. `c_str` is a `const char*`.
  unfoldable pub constructor : Json → TreeSchema → AtomicConstructor
  constructor json schema = record {
    size = sizeof_root;
    type_id = root_type;
    make = λ p. do
      store p (root (record { tag = tree_root_tag; node = oid_null; schema = oid_null }))
      allocate_at lib (root_schema p) (
          PersistentBuffer.constructor lib.usable_size buffer_type PersistentBuffer.char_pointer
            (json_str json schema));
  }

  -- `TreeRoot::addNode`
  unfoldable pub add_root : (String → Bool) → Oid → KeyType → List ℕ → M (Unit {0})
  add_root fits p [] blob = throw assertion_failed
  add_root fits p ((k, v) ∷ subkeys) blob = do
    r ← this_root p
    if null r.node
        then (do
          pool ← pool_from_pointer lib (inside p)
          q ← allocate_nested lib fits pool k ((k, v) ∷ subkeys) blob
          write (root_node p) q)
        else (do
          n ← node_at lib r.node
          key ← lift (fixed fits k)
          assert (same n.key key)
          add_node lib fits r.node ((k, v) ∷ subkeys) blob)

  -- The constructor of `TreeObject`: the schema that the root at `p` keeps.
  unfoldable pub wrap : Json → Oid → M TreeSchema
  unfolding as_buffer text_of
  wrap json p = do
    r ← this_root p
    o ← get lib buffer_type r.schema
    b ← as_buffer o.content
    text ← text_of b
    lift (init json no_keys text)

  -- `TreeObject::addNode`, of an object with this schema on the root at `p`
  unfoldable pub add : (String → Bool) → TreeSchema → Oid → StringDict → List ℕ → M (Unit {0})
  add fits schema p key blob = do
    chain ← lift (process_insert_key schema key)
    add_root fits p chain blob

  -- `TreeObject::lookup`
  unfoldable pub lookup : ℕ → (String → Bool) → Oid → StringDict → M (List Oid)
  lookup depth fits p key = do
    r ← this_root p
    if null r.node
        then pure []
        else (do node_at lib r.node; Lookup.lookup lib depth fits r.node key)

  -- `TreeObject::printTree`
  unfoldable pub print : (ℕ → String) → ℕ → Oid → M (List String)
  print bytes depth p = do
    r ← this_root p
    if null r.node then pure [] else (do node_at lib r.node; print_tree lib bytes depth r.node "")

  -- The two constructors of `TreePool`, and `root`.
  unfoldable pub create_tree_pool : Files → ℕ → Json → String → ℕ → TreeSchema → M PersistentPool
  create_tree_pool files min_pool json path size schema =
      create_pool files min_pool path size "tree-pool" (constructor json schema)

unfoldable pub open_tree_pool : Files → String → M PersistentPool
open_tree_pool files path = open_pool files path "tree-pool"

unfoldable pub tree_root : Files → PersistentPool → M Oid
tree_root files pool = get_root files sizeof_root pool
