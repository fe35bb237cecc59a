-- ===== src/Tree/Node/Lookup.antt =====
-- `TreeNode::lookup`.
pub mod Laws
pub mod Found
pub mod Matches
pub mod Added
use pmem.Prelude.{
  ℕ, zero, suc, Bool, true, not, Option, none, some, List, [], ◌∷◌, ◌++◌, String, ltb,
  if◌then◌else◌,
}
use pmem.Prelude.Result.{out_of_fuel}
use pmem.Oid.{Oid}
use pmem.Memory.Access.{M, pure, throw, lift, assert, ◌>>=◌, ◌>>◌}
use pmem.Memory.Pmemobj.{Pmemobj}
use pmem.Ptr.Location.{items}
use pmem.PersistentVector
use pmem.Tree.Schema.{StringDict, find, same}
use pmem.Tree.Node.{data_type, fixed, this_node, node_at, leaf}

module _ (lib : Pmemobj) where
  -- Both loops: the results of the sub-nodes whose value passes the test, in their order. `go` is
  -- the recursive call, and the first number bounds the rounds.
  unfoldable pub collect : (Oid → M (List Oid)) → (String → Bool) → ℕ → Oid → ℕ → M (List Oid)
  unfolding node_at PersistentVector.size PersistentVector.element
  collect go test zero p i = throw out_of_fuel
  collect go test (suc rounds) p i =
      let more = collect go test rounds p (suc i) in
      do
        sz ← PersistentVector.size lib data_type (items p)
        if ltb i sz
            then (do
              c ← PersistentVector.element lib data_type (items p) i
              n ← node_at lib c
              here ← if test n.value then (if leaf n then pure (c ∷ []) else go c) else pure []
              rest ← more
              pure (here ++ rest))
            else pure []

  -- Which values are looked for: that of the key in the request, or all of them.
  abbrev pub wanted : (String → Bool) → Option String → M (String → Bool)
  wanted fits none = pure (λ value. true)
  wanted fits (some v) = do value ← lift (fixed fits v); pure (λ u. same u value)

  -- `lookup`, a method of the node `p`, in a tree whose depth is below the first number
  unfoldable pub lookup : ℕ → (String → Bool) → Oid → StringDict → M (List Oid)
  unfolding this_node collect find PersistentVector.allocated_size
  lookup zero fits p request = throw out_of_fuel
  lookup (suc depth) fits p request = do
    n ← this_node p
    assert (not (leaf n))
    test ← wanted fits (find n.key request)
    slots ← PersistentVector.allocated_size lib data_type (items p)
    collect (λ c. lookup depth fits c request) test (suc slots) p 0
