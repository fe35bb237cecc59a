-- ===== src/Tree/Node/Add/Exists.antt =====
-- Insertions that meet a sub-node with the value.
use pmem.Prelude.{
  ℕ, ◌≡◌, refl, ◌∙◌, inl, inr, Bool, true, false, some, List, ◌∷◌, String, arith, ◌==◌,
}
use pmem.Prelude.Result.{Error, leaf_exists, ok}
use pmem.Oid.{Oid, null, oid_eq}
use pmem.Memory.Objects.{node, TreeNode, Object, State}
use pmem.Memory.Access.{load}
use pmem.Memory.Ends
use pmem.Memory.Ends.{Ends, returns, throws}
use pmem.Memory.Pmemobj.{Pmemobj, inside}
use pmem.Ptr.Location.{items, member}
use pmem.PersistentVector.Standing.{Stored}
use pmem.Tree.Schema.{KeyType, same}
use pmem.Tree.Node.{data_type, this_node, node_at, leaf}
use pmem.Tree.Node.Add.{find_child, add_node}
use pmem.Tree.Node.Add.Laws.{
  Node, Nodes, first_match, Searched, find_child-Ends, node_at_lem, not_vector, still-Node,
}

pub this_node_lem :
    (p : Oid) (own : Object) (n : TreeNode) (s : State)
    → s.heap p ≡ some own
    → own.content ≡ node n
    → this_node p s ≡ (ok n, s)
unfolding this_node load
this_node_lem p own n s at is = ground arith

module _ (lib : Pmemobj) (fits : String → Bool) (p : Oid) (own : Object) (n : TreeNode) (s : State)
    (at : s.heap p ≡ some own) (is : own.content ≡ node n)
    (has : member (items p) own.content ≡ some n.items) (apart : oid_eq p n.items ≡ false)
    (mapped : (lib.pool_by_ptr (inside p) s.opened == 0) ≡ false) (inner : null n.payload ≡ true)
    (k v : String) (key_fits : fits k ≡ true) (value_fits : fits v ≡ true)
    (key_same : same n.key k ≡ true) (m : ℕ) (xs : List Oid) (ns : List TreeNode)
    (stored : Stored data_type m n.items xs s) (nodes : Nodes p xs ns s) (c : Oid)
    (child : TreeNode) (first : first_match v xs ns ≡ some c) (child_at : Node c child s)
    (child_apart : oid_eq c p ≡ false) where
  abbrev pub After : State → Type 0
  After u = Searched lib p own n.items s at has apart mapped v m xs u

  found_child :
      {E : Error → State → Type 0} → Ends (λ r u. (r ≡ some c) × After u) E (find_child lib p v s)
  found_child =
      Ends.mono
        (find_child-Ends lib p own n.items s at has apart mapped v m xs ns (inr stored) nodes)
        (λ r u (found, h). (
          found ∙ first,
          elim h [
            | inl (same_u, is_null) ↦ absurd (cc (stored.alive, is_null))
            | inr after ↦ after
          ],
        ))
        (λ e u h. absurd h)

  child_now : (u : State) → After u → node_at lib c u ≡ (ok child, u)
  child_now u h = node_at_lem lib c child u (
      still-Node lib p own n.items s at has apart mapped v child_at child_apart
        (not_vector stored child_at) h.0)

  -- For a node in an open pool that holds no data, has the first pair's key and whose items lead
  -- to a vector of nodes, and a key and a value that fit: if the first sub-node with the value is
  -- a leaf, `addNode` throws `LeafExistsError`, with the same sub-nodes in the same vector and
  -- every other object as it was.
  pub add_node-leaf :
      (subkeys : KeyType) (blob : List ℕ)
      → leaf child ≡ true
      → Ends
          (λ _ u. ⊥)
          (λ e u. (e ≡ leaf_exists) × After u)
          (add_node lib fits p ((k, v) ∷ subkeys) blob s)
  unfolding add_node
  add_node-leaf subkeys blob is_leaf = rw (this_node_lem p own n s at is) (
      rw key_fits (
        rw key_same (
          rw inner (
            rw value_fits (
              Ends.bind _ found_child
                λ r u (found, h). rw found (rw (child_now u h) (rw is_leaf (throws (refl, h)))))))))
