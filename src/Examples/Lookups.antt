-- ===== src/Examples/Lookups.antt =====
-- A lookup in a node with one leaf.
use pmem.Prelude.{◌≡◌, refl, [], ◌∷◌}
use pmem.Memory.Ends.{Ends}
use pmem.Ptr.Location.{items}
use pmem.PersistentVector.Standing.{Stored, Moved}
use pmem.Tree.Schema.{StringDict, find}
use pmem.Tree.Node.Lookup.{lookup}
use pmem.Tree.Node.Lookup.Laws.{lookup-Ends}
use pmem.Examples.Library.{lib}
use pmem.Examples.Search.{
  parent_at, vector_at, child_at, node_object, child_node, parent_node, leaf_state, parent_found,
  vector-Stored, children, every,
}

abbrev request : StringDict
request = ("name", "spam") ∷ []

lookup_example :
    Ends
      (λ r u.
        (r ≡ child_at ∷ [])
        × Moved (items parent_at) (node_object parent_node) vector_at vector_at leaf_state u
        × Stored 2 2 vector_at (child_at ∷ []) u)
      (λ e u. ⊥)
      (lookup lib 1 every parent_at request leaf_state)
unfolding find
lookup_example =
    lookup-Ends lib every parent_at (node_object parent_node) parent_node leaf_state
      (parent_found vector_at) refl refl refl refl refl 2 (child_at ∷ [])
      (child_node vector_at ∷ []) (vector-Stored vector_at) (children vector_at) request refl 0
      (λ c. []) ((λ chosen_e inner_e u h. absurd (cc inner_e)), tt)
