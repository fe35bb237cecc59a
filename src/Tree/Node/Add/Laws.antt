-- ===== src/Tree/Node/Add/Laws.antt =====
-- The search of a node's sub-nodes for a value.
use pmem.Prelude.{
  ℕ, zero, suc, ◌≡◌, ◌<◌, refl, ap, sym, ◌∙◌, ◌⊎◌, inl, inr, true, false, Option, none, some, List,
  [], ◌∷◌, ◌++◌, String, arith, length, get_elem?, get_elem?-append, length-append, append_assoc,
  ltb, ◌==◌, if◌then◌else◌, Bool-cases,
}
use pmem.Prelude.Result.{ok}
use pmem.Oid.{Oid, null, oid_eq, oid_eq_iff}
use pmem.Memory.Objects.{node, TreeNode, Object, State}
use pmem.Memory.Ends
use pmem.Memory.Ends.{Ends, returns, throws}
use pmem.Memory.Pmemobj.{Pmemobj, inside}
use pmem.Ptr.Location.{items, member}
use pmem.Ptr.Location.Laws.{read_lem}
use pmem.PersistentVector
use pmem.PersistentVector.Standing.{Stored, Moved, get_lem}
use pmem.PersistentVector.Steps.{size_now, element_now, allocated_now}
use pmem.PersistentVector.Push.{begin, fits_now}
use pmem.Tree.Schema.{same}
use pmem.Tree.Node.{data_type, node_type, node_at}
use pmem.Tree.Node.Add.{search, find_child}

-- The object at `c` is the node `n`.
pub record Node (c : Oid) (n : TreeNode) (s : State) : Type 0 where
  pub object : Object
  pub at : s.heap c ≡ some object
  pub typed : object.type_num ≡ node_type
  pub is : object.content ≡ node n

-- The objects at `xs` are the nodes `ns`, and none of them is at `p`.
abbrev pub Nodes : Oid → List Oid → List TreeNode → State → Type 0
Nodes p [] [] s = Unit {0}
Nodes p (c ∷ xs) (n ∷ ns) s = Node c n s × (oid_eq c p ≡ false) × Nodes p xs ns s
Nodes p _ _ s = ⊥

-- The first of the nodes that has the value.
abbrev pub first_match : String → List Oid → List TreeNode → Option Oid
first_match value (c ∷ xs) (n ∷ ns) = if same n.value value then some c else first_match value xs ns
first_match value _ _ = none

pub node_at_lem :
    (lib : Pmemobj) (c : Oid) (n : TreeNode) (s : State) → Node c n s → node_at lib c s ≡ (ok n, s)
unfolding node_at
node_at_lem lib c n s k = rw (get_lem lib node_type c k.object s k.at k.typed) (rw k.is refl)

pub length-snoc : (xs : List Oid) (c : Oid) → length (xs ++ c ∷ []) ≡ suc (length xs)
length-snoc xs c = omega (arith, length-append xs (c ∷ []))

-- A node is not a vector.
pub not_vector :
    {type_id m : ℕ} {q c : Oid} {n : TreeNode} {xs : List Oid} {s : State}
    → Stored type_id m q xs s
    → Node c n s
    → oid_eq c q ≡ false
not_vector {q} {c} {s} k h = elim (Bool-cases (oid_eq c q)) [
  | inl equal ↦ absurd (cc (ap s.heap ((oid_eq_iff c q).0 equal), k.at, h.at, k.is, h.is))
  | inr other ↦ other
]

module _ (lib : Pmemobj) (p : Oid) (own : Object) (q : Oid) (s : State) (at : s.heap p ≡ some own)
    (has : member (items p) own.content ≡ some q) (apart : oid_eq p q ≡ false)
    (mapped : (lib.pool_by_ptr (inside p) s.opened == 0) ≡ false) (value : String) where
  -- What a search leaves: the same nodes in the same vector.
  abbrev pub Searched : ℕ → List Oid → State → Type 0
  Searched m xs u = Moved (items p) own q q s u × Stored data_type m q xs u

  pub still-Node :
      {c : Oid} {n : TreeNode} {t : State}
      → Node c n s
      → oid_eq c p ≡ false
      → oid_eq c q ≡ false
      → Moved (items p) own q q s t
      → Node c n t
  still-Node {c} k ne away moved = record {
    object = k.object;
    at = moved.others c k.object k.at ne away;
    typed = k.typed;
    is = k.is;
  }

  module _ {m : ℕ} {all : List Oid} (k0 : Stored data_type m q all s) where
    search_lem :
        (rounds : ℕ) (pre xs : List Oid) (ns : List TreeNode) (t : State)
        → pre ++ xs ≡ all
        → Nodes p xs ns s
        → Searched m all t
        → length xs < rounds
        → Ends
            (λ r u. (r ≡ first_match value xs ns) × Searched m all u)
            (λ e u. ⊥)
            (search lib rounds p value (length pre) t)
    unfolding search
    search_lem zero pre xs ns t split nodes (moved, k) room = absurd (omega (arith, room))
    search_lem (suc rounds) pre [] [] t split nodes (moved, k) room =
        Ends.bind _ (size_now lib data_type (items p) own q has q s mapped moved k)
          λ r u (is, m', k').
            let over : ltb (length pre) r ≡ false =
              ground (arith, is, ap length split, length-append pre []) in
            rw over (returns (refl, (m', k')))
    search_lem (suc rounds) pre (c ∷ xs) (n ∷ ns) t split nodes (moved, k) room =
        Ends.bind _ (size_now lib data_type (items p) own q has q s mapped moved k)
          λ r u (is, m', k').
            let more : ltb (length pre) r ≡ true =
              ground (arith, is, ap length split, length-append pre (c ∷ xs)) in
            rw more (
              Ends.bind _
                (element_now lib data_type (items p) own q has q s mapped m' k' (length pre) c
                  (ap (λ l. get_elem? l (length pre)) (sym split) ∙ get_elem?-append pre xs c))
                λ d w (it, m'', k''). rw it (
                  rw
                    (node_at_lem lib c n w (still-Node nodes.0 nodes.1 (not_vector k0 nodes.0) m''))
                    (elim (Bool-cases (same n.value value)) [
                      | inl hit ↦ rw hit (returns (refl, (m'', k'')))
                      | inr miss ↦ rw miss (
                          let next =
                            search_lem rounds (pre ++ c ∷ []) xs ns w
                              (append_assoc pre (c ∷ []) xs ∙ split) nodes.2 (m'', k'')
                              (omega arith) in
                          rw (length-snoc pre c) at next)
                    ])))
    search_lem (suc rounds) pre [] (n ∷ ns) t split nodes h room = absurd nodes
    search_lem (suc rounds) pre (c ∷ xs) [] t split nodes h room = absurd nodes

  no_vector :
      (m : ℕ)
      → null q ≡ true
      → Ends
          (λ r u. (r ≡ none) × (((u ≡ s) × (null q ≡ true)) ⊎ Searched m [] u))
          (λ e u. ⊥)
          (find_child lib p value s)
  unfolding find_child search PersistentVector.size PersistentVector.allocated_size
  no_vector m is_null = rw (read_lem (items p) q s own at has) (
      rw is_null
        (rw (read_lem (items p) q s own at has) (rw is_null (returns (refl, inl (refl, refl))))))

  -- For a node in an open pool whose items are null (with no sub-nodes) or lead to a vector whose
  -- elements are nodes, none of them the node itself: the search ends without an exception, with
  -- the first sub-node that has the value or with none. The state is unchanged or still has the
  -- same vector behind the same pointer, with every other object as it was.
  pub find_child-Ends :
      (m : ℕ) (xs : List Oid) (ns : List TreeNode)
      → ((null q ≡ true) × (xs ≡ [])) ⊎ Stored data_type m q xs s
      → Nodes p xs ns s
      → Ends
          (λ r u. (r ≡ first_match value xs ns) × (((u ≡ s) × (null q ≡ true)) ⊎ Searched m xs u))
          (λ e u. ⊥)
          (find_child lib p value s)
  unfolding find_child
  find_child-Ends m xs ns (inr k) nodes =
      let moved = begin lib data_type (items p) own q s at has apart mapped in
      Ends.bind _ (allocated_now lib data_type (items p) own q has q s mapped moved k)
        λ slots t (is, m', k'). rw is (
          Ends.mono
            (search_lem k (suc m) [] xs ns t refl nodes (m', k') (omega (arith, fits_now k)))
            (λ r u (found, h). (found, inr h)) (λ e u h. h))
  find_child-Ends m [] [] (inl (is_null, none_e)) nodes = no_vector m is_null
  find_child-Ends m (c ∷ xs) ns (inl (is_null, none_e)) nodes = absurd (cc none_e)
  find_child-Ends m [] (n ∷ ns) (inl h) nodes = absurd nodes
