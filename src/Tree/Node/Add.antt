-- ===== src/Tree/Node/Add.antt =====
-- `TreeNode::addNode`.
pub mod Laws
pub mod Exists
pub mod Found
pub mod Grown
pub mod Beyond
pub mod Inserts
pub mod Insert
use pmem.Prelude.{
  ℕ, zero, suc, Bool, true, false, Option, none, some, List, [], ◌∷◌, String, ltb, if◌then◌else◌,
}
use pmem.Prelude.Result.{assertion_failed, leaf_exists, out_of_fuel, Result, ok, err}
use pmem.Oid.{Oid, null}
use pmem.Memory.Access.{M, pure, throw, lift, assert, ◌>>=◌, ◌>>◌}
use pmem.Memory.Pmemobj.{Pmemobj, inside}
use pmem.Ptr.Location.{items}
use pmem.PersistentVector
use pmem.Pool.Registry.{pool_from_pointer}
use pmem.Tree.Schema.{KeyType, same}
use pmem.Tree.Node.{data_type, fixed, allocate_nested, this_node, node_at, leaf}

module _ (lib : Pmemobj) where
  -- The loop: the first sub-node of the node `p`, from `i` on, that has the value. The first
  -- argument bounds the rounds.
  unfoldable pub search : ℕ → Oid → String → ℕ → M (Option Oid)
  unfolding node_at PersistentVector.size PersistentVector.element
  search zero p value i = throw out_of_fuel
  search (suc rounds) p value i =
      let rest = search rounds p value (suc i) in
      do
        sz ← PersistentVector.size lib data_type (items p)
        if ltb i sz
            then (do
              c ← PersistentVector.element lib data_type (items p) i
              n ← node_at lib c
              if same n.value value then pure (some c) else rest)
            else pure none

  -- A round for each slot, and one that ends the loop.
  unfoldable pub find_child : Oid → String → M (Option Oid)
  unfolding search PersistentVector.allocated_size
  find_child p value = do
    slots ← PersistentVector.allocated_size lib data_type (items p)
    search (suc slots) p value 0

  -- `addNode`, a method of the node `p`
  unfoldable pub add_node : (String → Bool) → Oid → KeyType → List ℕ → M (Unit {0})
  unfolding this_node node_at find_child pool_from_pointer allocate_nested
      PersistentVector.push_back_elem
  add_node fits p [] blob = throw assertion_failed
  add_node fits p ((k, v) ∷ subkeys) blob = do
    n ← this_node p
    key ← lift (fixed fits k)
    assert (same n.key key)
    assert (null n.payload)
    value ← lift (fixed fits v)
    found ← find_child p value
    elim found [
      | some c ↦ (do
        child ← node_at lib c
        if leaf child then throw leaf_exists else add_node fits c subkeys blob)
      | none ↦ (do
        pool ← pool_from_pointer lib (inside p)
        q ← allocate_nested lib fits pool value subkeys blob
        PersistentVector.push_back_elem lib data_type (items p) q)
    ]
