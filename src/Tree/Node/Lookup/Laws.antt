-- ===== src/Tree/Node/Lookup/Laws.antt =====
-- What a lookup gathers from a node's sub-nodes.
use pmem.Prelude.{
  ℕ, zero, suc, ◌≡◌, ◌<◌, refl, ap, sym, ◌∙◌, inl, inr, Bool, true, false, Option, none, some, List,
  [], ◌∷◌, ◌++◌, String, arith, length, get_elem?, get_elem?-append, length-append, append_assoc,
  ltb, ◌==◌, if◌then◌else◌, Bool-cases,
}
use pmem.Prelude.Result.{ok}
use pmem.Oid.{Oid, oid_eq}
use pmem.Memory.Objects.{node, TreeNode, Object, State}
use pmem.Memory.Access.{M, pure}
use pmem.Memory.Ends
use pmem.Memory.Ends.{Ends, returns, throws}
use pmem.Memory.Pmemobj.{Pmemobj, inside}
use pmem.Ptr.Location.{items, member}
use pmem.PersistentVector.Standing.{Stored, Moved}
use pmem.PersistentVector.Steps.{size_now, element_now, allocated_now}
use pmem.PersistentVector.Push.{begin, fits_now}
use pmem.Tree.Schema.{StringDict, find}
use pmem.Tree.Node.{data_type, leaf}
use pmem.Tree.Node.Add.Laws.{Nodes, node_at_lem, not_vector, still-Node, length-snoc}
use pmem.Tree.Node.Add.Exists.{this_node_lem}
use pmem.Tree.Shape.{chosen}
use pmem.Tree.Node.Lookup.{collect, lookup, wanted}

-- What a sub-node gives: itself if it is a leaf, and otherwise what is found below it.
abbrev given : (Oid → List Oid) → (String → Bool) → Oid → TreeNode → List Oid
given below test c n = if test n.value then (if leaf n then c ∷ [] else below c) else []

-- What the sub-nodes give, in their order.
abbrev pub gathered : (Oid → List Oid) → (String → Bool) → List Oid → List TreeNode → List Oid
gathered below test (c ∷ xs) (n ∷ ns) = given below test c n ++ gathered below test xs ns
gathered below test _ _ = []

module _ (lib : Pmemobj) (p : Oid) (own : Object) (q : Oid) (s : State) (at : s.heap p ≡ some own)
    (has : member (items p) own.content ≡ some q) (apart : oid_eq p q ≡ false)
    (mapped : (lib.pool_by_ptr (inside p) s.opened == 0) ≡ false) (m : ℕ) (all : List Oid)
    (k0 : Stored data_type m q all s) (go : Oid → M (List Oid)) (below : Oid → List Oid)
    (test : String → Bool) where
  abbrev pub Same : State → Type 0
  Same u = Moved (items p) own q q s u × Stored data_type m q all u

  -- Each sub-node that is looked into answers with what is below it, and changes no object.
  abbrev pub Answers : List Oid → List TreeNode → Type 0
  Answers (c ∷ xs) (n ∷ ns) =
      ((test n.value ≡ true)
        → (leaf n ≡ false)
        → (u : State) → Same u
        → Ends (λ r w. (r ≡ below c) × Same w) (λ e w. ⊥) (go c u))
      × Answers xs ns
  Answers _ _ = Unit {0}

  here_lem :
      (c : Oid) (n : TreeNode) (u : State)
      → Same u
      → ((test n.value ≡ true)
          → (leaf n ≡ false)
          → (u : State) → Same u
          → Ends (λ r w. (r ≡ below c) × Same w) (λ e w. ⊥) (go c u))
      → Ends
          (λ r w. (r ≡ given below test c n) × Same w)
          (λ e w. ⊥)
          ((if test n.value then (if leaf n then pure (c ∷ []) else go c) else pure []) u)
  here_lem c n u h answer = elim (Bool-cases (test n.value)) [
    | inl yes_e ↦ elim (Bool-cases (leaf n)) [
      | inl is_leaf ↦ rw (yes_e, is_leaf) (returns (refl, h))
      | inr inner ↦ rw (yes_e, inner) (answer yes_e inner u h)
    ]
    | inr no_e ↦ rw no_e (returns (refl, h))
  ]

  collect_lem :
      (rounds : ℕ) (pre xs : List Oid) (ns : List TreeNode) (t : State)
      → pre ++ xs ≡ all
      → Nodes p xs ns s
      → Answers xs ns
      → Same t
      → length xs < rounds
      → Ends
          (λ r u. (r ≡ gathered below test xs ns) × Same u)
          (λ e u. ⊥)
          (collect lib go test rounds p (length pre) t)
  unfolding collect
  collect_lem zero pre xs ns t split nodes answers (moved, k) room = absurd (omega (arith, room))
  collect_lem (suc rounds) pre [] [] t split nodes answers (moved, k) room =
      Ends.bind _ (size_now lib data_type (items p) own q has q s mapped moved k)
        λ r u (is, m', k').
          let over : ltb (length pre) r ≡ false =
            ground (arith, is, ap length split, length-append pre []) in
          rw over (returns (refl, (m', k')))
  collect_lem (suc rounds) pre (c ∷ xs) (n ∷ ns) t split nodes answers (moved, k) room =
      Ends.bind _ (size_now lib data_type (items p) own q has q s mapped moved k)
        λ r u (is, m', k').
          let more : ltb (length pre) r ≡ true =
            ground (arith, is, ap length split, length-append pre (c ∷ xs)) in
          rw more (
            Ends.bind _
              (element_now lib data_type (items p) own q has q s mapped m' k' (length pre) c
                (ap (λ l. get_elem? l (length pre)) (sym split) ∙ get_elem?-append pre xs c))
              λ d w (it, m'', k''). rw it (
                rw
                  (node_at_lem lib c n w (
                    still-Node lib p own q s at has apart mapped "" nodes.0 nodes.1
                      (not_vector k0 nodes.0) m''))
                  (Ends.bind _ (here_lem c n w (m'', k'') answers.0) λ here x (is_here, h).
                    let next =
                      collect_lem rounds (pre ++ c ∷ []) xs ns x
                        (append_assoc pre (c ∷ []) xs ∙ split) nodes.2 answers.1 h (omega arith) in
                    Ends.bind _ (rw (length-snoc pre c) at next)
                      λ rest y (is_rest, h'). rw (is_here, is_rest) (returns (refl, h')))))
  collect_lem (suc rounds) pre [] (n ∷ ns) t split nodes answers h room = absurd nodes
  collect_lem (suc rounds) pre (c ∷ xs) [] t split nodes answers h room = absurd nodes

-- The request's value is short enough, if it has one.
abbrev pub Fit : (String → Bool) → Option String → Type 0
Fit fits none = Unit {0}
Fit fits (some v) = fits v ≡ true

pub wanted_lem :
    (lib : Pmemobj) (fits : String → Bool) (o : Option String) (s : State)
    → Fit fits o
    → wanted lib fits o s ≡ (ok (chosen o), s)
wanted_lem lib fits none s h = refl
wanted_lem lib fits (some v) s h = rw h refl

module _ (lib : Pmemobj) (fits : String → Bool) (p : Oid) (own : Object) (n : TreeNode) (s : State)
    (at : s.heap p ≡ some own) (is : own.content ≡ node n)
    (has : member (items p) own.content ≡ some n.items) (apart : oid_eq p n.items ≡ false)
    (mapped : (lib.pool_by_ptr (inside p) s.opened == 0) ≡ false) (inner : leaf n ≡ false) (m : ℕ)
    (xs : List Oid) (ns : List TreeNode) (stored : Stored data_type m n.items xs s)
    (nodes : Nodes p xs ns s) (request : StringDict) (fit : Fit fits (find n.key request)) where
  -- For a node in an open pool that holds no data and whose items lead to a vector of nodes, with
  -- a request whose value for the node's key, if it has one, fits: if `lookup` answers, on each
  -- sub-node that is no leaf and whose value is looked for, with the list `below` of it and
  -- changes no object but the count of the node's own vector, then `lookup` on the node throws
  -- nothing, changes no other object, and gives the sub-nodes' answers in their order: a leaf
  -- itself, `below` for another node, and nothing for a value that is not looked for. All values
  -- are looked for if the request lacks the key.
  pub lookup-Ends :
      (depth : ℕ) (below : Oid → List Oid)
      → Answers lib p own n.items s at has apart mapped m xs stored
          (λ c. lookup lib depth fits c request)
          below
          (chosen (find n.key request))
          xs
          ns
      → Ends
          (λ r u.
            (r ≡ gathered below (chosen (find n.key request)) xs ns)
            × Moved (items p) own n.items n.items s u
            × Stored data_type m n.items xs u)
          (λ e u. ⊥)
          (lookup lib (suc depth) fits p request s)
  unfolding lookup
  lookup-Ends depth below answers =
      let moved = begin lib data_type (items p) own n.items s at has apart mapped in
      rw (this_node_lem p own n s at is) (
        rw inner (
          rw (wanted_lem lib fits (find n.key request) s fit) (
            Ends.bind _
              (allocated_now lib data_type (items p) own n.items has n.items s mapped moved stored)
              λ slots t (is_m, m', k'). rw is_m (
                Ends.mono
                  (collect_lem lib p own n.items s at has apart mapped m xs stored
                    (λ c. lookup lib depth fits c request) below (chosen (find n.key request))
                    (suc m) [] xs ns t refl nodes answers (m', k') (omega (arith, fits_now stored)))
                  (λ r u (it, h). (it, h.0, h.1)) (λ e u h. h)))))
