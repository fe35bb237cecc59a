-- ===== src/Tree/Node/Add/Found.antt =====
-- The search of `addNode` leaves every object alike.
use pmem.Prelude.{ℕ, ◌≡◌, refl, ◌⊎◌, inl, inr, true, false, some, List, [], String, arith, ◌==◌}
use pmem.Oid.{Oid, null, oid_eq}
use pmem.Memory.Objects.{TreeNode, State}
use pmem.Memory.Ends
use pmem.Memory.Ends.{Ends, returns, throws}
use pmem.Memory.Pmemobj.{Pmemobj, inside}
use pmem.Ptr.Location.{items, member}
use pmem.PersistentVector.Standing.{Stored}
use pmem.Tree.Node.{data_type}
use pmem.Tree.Node.Add.{find_child}
use pmem.Tree.Node.Add.Laws.{Node, Nodes, first_match, find_child-Ends}
use pmem.Tree.Rep.Quiet.{Quiet, Quiet-refl, moved-Quiet}

pub find-Quiet :
    (lib : Pmemobj) (p : Oid) (n : TreeNode) (s : State) (nd : Node p n s) (v : String) (m : ℕ)
    (xs : List Oid) (ns : List TreeNode)
    → oid_eq p n.items ≡ false
    → (lib.pool_by_ptr (inside p) s.opened == 0) ≡ false
    → ((null n.items ≡ true) × (xs ≡ [])) ⊎ Stored data_type m n.items xs s
    → Nodes p xs ns s
    → Ends (λ r u. (r ≡ first_match v xs ns) × Quiet s u) (λ e u. ⊥) (find_child lib p v s)
find-Quiet lib p n s nd v m xs ns away mapped start nodes =
    let has : member (items p) nd.object.content ≡ some n.items = rw nd.is refl in
    Ends.mono
      (find_child-Ends lib p nd.object n.items s nd.at has away mapped v m xs ns start nodes)
      (λ r u (found, h). (
        found,
        elim h [
          | inl (same_u, is_null) ↦ rw same_u (Quiet-refl s)
          | inr (moved, k') ↦ elim start [
            | inl (is_null, none_e) ↦ absurd (cc (is_null, k'.alive))
            | inr k ↦ moved-Quiet nd.at has k moved k'
          ]
        ],
      ))
      (λ e u h. h)

pub ne_of_null : (p q : Oid) → null p ≡ false → null q ≡ true → oid_eq p q ≡ false
ne_of_null p q alive is_null = ground arith
