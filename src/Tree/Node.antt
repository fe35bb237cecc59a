-- ===== src/Tree/Node.antt =====
-- `TreeNode` (src/pmem/tree/TreeNode.h, .cc). A node has the pointer of a vector of nodes, which
-- are told apart by their values, or data; `key` says what its sub-nodes' values are values of.
pub mod Add
pub mod Lookup
pub mod Print
pub mod Create
pub mod Nest
pub mod Overflow
use pmem.Prelude.{
  ℕ, zero, suc, ◌+◌, ◌-◌, Bool, true, false, not, Option, none, some, List, [], ◌∷◌, ◌++◌, String,
  length, get_elem?, ltb, ◌==◌, if◌then◌else◌,
}
use pmem.Prelude.Result.{assertion_failed, leaf_exists, fault, out_of_fuel, Result, ok, err}
use pmem.Oid.{Oid, oid_null, null}
use pmem.Memory.Objects.{Content, buffer, node, Buffer, TreeNode, Object, PersistentPool, State}
use pmem.Memory.Access.{M, pure, throw, lift, assert, load, store, ◌>>=◌, ◌>>◌}
use pmem.Memory.Pmemobj.{Pmemobj, inside}
use pmem.Ptr.Constructor.{AtomicConstructor, passing}
use pmem.Ptr.Location.{Location, items}
use pmem.Ptr.Pointer.{get}
use pmem.Text.PersistentBuffer
use pmem.PersistentVector
use pmem.Pool.Registry.{pool_from_pointer}
use pmem.Pool.PersistentPool.{allocate}
use pmem.Tree.Schema.{StringDict, KeyType, find, same}

-- The type numbers of src/pmem/tree/TreePool.cc, and `sizeof(TreeNode)`.
abbrev pub node_type : ℕ
node_type = 1

abbrev pub data_type : ℕ
data_type = 2

abbrev pub buffer_type : ℕ
buffer_type = 3

abbrev pub sizeof_node : ℕ
sizeof_node = 56

-- `fits` is the assertion of `eckit::FixedString<12>` on the string that it is made from.
abbrev pub fixed : (String → Bool) → String → Result String
fixed fits s = if fits s then ok s else err assertion_failed

module _ (lib : Pmemobj) (fits : String → Bool) where
  -- `TreeNode(key, value)`: the members are made in the order `items_`, `data_`, `value_`, `key_`.
  unfoldable pub make_node : String → String → Oid → M (Unit {0})
  make_node key value p = do
    value ← lift (fixed fits value)
    key ← lift (fixed fits key)
    store p (node (record { items = oid_null; payload = oid_null; value = value; key = key }))

  -- `TreeNode(value, dataBlob)`
  unfoldable pub make_leaf : String → Oid → Oid → M (Unit {0})
  make_leaf value data_blob p = do
    value ← lift (fixed fits value)
    key ← lift (fixed fits "")
    store p (node (record { items = oid_null; payload = data_blob; value = value; key = key }))

  -- `allocateLeaf`. `DataBlob::buffer` returns a `const char*`.
  unfoldable pub allocate_leaf : PersistentPool → String → List ℕ → M Oid
  unfolding allocate passing make_leaf
  allocate_leaf pool value blob = do
    p_blob ← allocate lib pool (
        PersistentBuffer.constructor lib.usable_size buffer_type PersistentBuffer.char_pointer blob)
    allocate lib pool (passing sizeof_node node_type (make_leaf value p_blob))

  abbrev at_index : KeyType → ℕ → M (String × String)
  at_index chain i s = elim (get_elem? chain i) [ none ↦ (err fault, s) | some e ↦ (ok e, s) ]

  -- The second member of the pair in front of the first `i`, or the value where there is none.
  pub value_before : String → KeyType → ℕ → M String
  value_before value chain zero = pure value
  value_before value chain (suc i) = do (k, v) ← at_index chain i; pure v

  -- The loop of `allocateNested`, with the pairs in front of the first `i` left.
  nest : PersistentPool → String → KeyType → ℕ → Oid → M Oid
  unfolding allocate passing make_node value_before
  nest pool value chain zero p_node = pure p_node
  nest pool value chain (suc i) p_node = do
    (k, u) ← at_index chain i
    v ← value_before value chain i
    p_new_node ← allocate lib pool (passing sizeof_node node_type (make_node k v))
    get lib node_type p_new_node
    PersistentVector.push_back_elem lib data_type (items p_new_node) p_node
    nest pool value chain i p_new_node

  -- `allocateNested`
  unfoldable pub allocate_nested : PersistentPool → String → KeyType → List ℕ → M Oid
  unfolding allocate_leaf nest value_before
  allocate_nested pool value chain blob = do
    leaf_value ← value_before value chain (length chain)
    p_node ← allocate_leaf pool leaf_value blob
    nest pool value chain (length chain) p_node

abbrev as_node : Content → M TreeNode
as_node (node n) = pure n
as_node _ = throw fault

-- The node that a method works on.
unfoldable pub this_node : Oid → M TreeNode
unfolding load
this_node p = do o ← load p; as_node o.content

-- A node through `operator->`.
unfoldable pub node_at : Pmemobj → Oid → M TreeNode
unfolding get
node_at lib p = do o ← get lib node_type p; as_node o.content

-- `leaf`
abbrev pub leaf : TreeNode → Bool
leaf n = not (null n.payload)

module _ (lib : Pmemobj) where
  -- `nodeCount`
  unfoldable pub node_count : Oid → M ℕ
  unfolding PersistentVector.size
  node_count p = PersistentVector.size lib data_type (items p)

  -- `dataSize`
  unfoldable pub data_size : Oid → M ℕ
  unfolding this_node get
  data_size p = do
    n ← this_node p
    if null n.payload then pure 0 else (do o ← get lib buffer_type n.payload; buffer_size o.content)
    where
      buffer_size : Content → M ℕ
      buffer_size (buffer b) = pure (PersistentBuffer.size b)
      buffer_size _ = throw fault
