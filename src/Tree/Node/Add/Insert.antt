-- ===== src/Tree/Node/Add/Insert.antt =====
-- `addNode` on a whole tree of nodes means `insert`.
use pmem.Prelude.{
  ℕ, ◌+◌, ◌*◌, ◌<◌, ◌≡◌, refl, sym, inl, inr, Bool, true, false, ◌&&◌, some, List, [], ◌∷◌, String,
  arith, Bool-cases, ◌==◌, word,
}
use pmem.Prelude.Result.{assertion_failed, err}
use pmem.Oid.{Oid, null}
use pmem.Memory.Objects.{TreeNode, PersistentPool, State}
use pmem.Memory.Ends.{Ends, throws}
use pmem.Memory.Pmemobj.{Pmemobj}
use pmem.Pool.Registry.{Pools, find}
use pmem.Text.PersistentBuffer
use pmem.Tree.Schema.{KeyType, same}
use pmem.Tree.Node.Create.{Home}
use pmem.Tree.Node.Add.{add_node}
use pmem.Tree.Node.Add.Laws.{Node}
use pmem.Tree.Node.Add.Exists.{this_node_lem}
use pmem.Tree.Node.Add.Grown.{Grown-Quiet}
use pmem.Tree.Node.Add.Inserts.{Inserted, NotInserted, Inserts, past_guards}
use pmem.Tree.Shape.{Tree, leaf, inner, Trees, is_leaf, insert}
use pmem.Tree.Rep.{Region, Within, Rep, inner_rep, Items}
use pmem.Tree.Rep.Quiet.{Quiet-refl}
use pmem.Tree.Rep.Grows.{Owned}

pub refused_lem :
    (fits : String → Bool) (blob : List ℕ) (k v : String) (chain : KeyType) (w key : String)
    (ts : Trees)
    → fits k && (same key k && fits v) ≡ false
    → insert fits ((k, v) ∷ chain) blob (inner w key ts) ≡ err assertion_failed
unfolding insert
refused_lem fits blob k v chain w key ts no_e = rw no_e refl

module _ (lib : Pmemobj) (fits : String → Bool) (empty_e : fits "" ≡ true) (pool : PersistentPool)
    (open_pool : (pool.handle == 0) ≡ false) (os : List ℕ) (regs : Pools)
    (listed : find pool.handle regs ≡ some pool) (b : ℕ) (positive : 0 < b)
    (small : b * 32 + 16 < word) (blob : List ℕ)
    (room : PersistentBuffer.HasRoom lib.usable_size blob) where
  with_guards :
      (k v : String) (chain : KeyType)
      → Inserts lib fits empty_e pool open_pool os regs listed b positive small blob room chain
      → (p : Oid) (A B : Region) (n : TreeNode) (ts : Trees) (s : State) → A p ≡ true
      → Within B A
      → B p ≡ false
      → Node p n s
      → null n.payload ≡ true
      → Home lib pool os p
      → Items (Home lib pool os) b s B n.items ts
      → Owned A s
      → s.opened ≡ os
      → s.registry ≡ regs
      → Ends
          (λ _ u.
            Inserted lib fits empty_e pool open_pool os regs listed b positive small blob room
              ((k, v) ∷ chain)
              s
              A
              p
              (inner n.value n.key ts)
              u)
          (NotInserted lib fits empty_e pool open_pool os regs listed b positive small blob room
            ((k, v) ∷ chain)
            s
            A
            p
            (inner n.value n.key ts))
          (add_node lib fits p ((k, v) ∷ chain) blob s)
  unfolding add_node
  with_guards k v chain next p A B n ts s here within out nd no_data home below owned opened
        registered =
      let rep_now : Rep (Home lib pool os) b s A p (inner n.value n.key ts) =
        inner_rep n B here within out nd refl refl no_data home below in
      let kept = Grown-Quiet {b' = b * 2} rep_now owned (omega arith) (Quiet-refl s) in
      let stop : fits k && (same n.key k && fits v) ≡ false
          → NotInserted lib fits empty_e pool open_pool os regs listed b positive small blob room
              ((k, v) ∷ chain) s A p (inner n.value n.key ts) assertion_failed s =
        λ no_e. (inr (refused_lem fits blob k v chain n.value n.key ts no_e), kept) in
      elim (Bool-cases (fits k)) [
        | inr no_e ↦
            rw (this_node_lem p nd.object n s nd.at nd.is) (rw no_e (throws (stop (rw no_e refl))))
        | inl k_fits ↦ elim (Bool-cases (same n.key k)) [
          | inr no_e ↦
              rw (this_node_lem p nd.object n s nd.at nd.is)
                (rw (k_fits, no_e) (throws (stop (rw (k_fits, no_e) refl))))
          | inl k_same ↦ elim (Bool-cases (fits v)) [
            | inr no_e ↦ rw (this_node_lem p nd.object n s nd.at nd.is) (
                rw (k_fits, k_same) (rw (no_data, no_e) (throws (stop (rw (k_fits, k_same) no_e)))))
            | inl v_fits ↦
                past_guards lib fits empty_e pool open_pool os regs listed b positive small blob
                  room k v chain next k_fits v_fits s opened registered p n nd no_data home k_same A
                  B owned here within out ts below
          ]
        ]
      ]

  -- For a tree of nodes in a pool that is open and registered, whose objects are apart, none of
  -- whose vectors has more than `b` slots, with `b` positive and `b * 32 + 16` below 2^64, and
  -- with a node that is no leaf at the top; if the empty string fits; for data that fit, with
  -- their length in front, into each block that libpmemobj gives where `sizeof(PersistentBuffer)`
  -- bytes are asked for: `addNode` on the top node ends in one of two ways. Either `insert` of
  -- the chain into the tree gives a tree, and the top node now is this tree; or an allocation
  -- error is thrown or the error that `insert` gives, and the top node still is the tree from
  -- before. In both cases no vector has more than `2 * b` slots, the objects outside of the tree
  -- are alike, and what the tree has taken in was free.
  pub add_node-insert :
      (chain : KeyType) (p : Oid) (A : Region) (t : Tree) (s : State)
      → Rep (Home lib pool os) b s A p t
      → Owned A s
      → is_leaf t ≡ false
      → s.opened ≡ os
      → s.registry ≡ regs
      → Ends
          (λ _ u.
            Inserted lib fits empty_e pool open_pool os regs listed b positive small blob room chain
              s A p t u)
          (NotInserted lib fits empty_e pool open_pool os regs listed b positive small blob room
            chain s A p t)
          (add_node lib fits p chain blob s)
  unfolding add_node insert
  add_node-insert [] p A t s rep owned is_inner opened registered =
      throws (inr refl, Grown-Quiet rep owned (omega arith) (Quiet-refl s))
  add_node-insert ((k, v) ∷ chain) p A (leaf w old) s rep owned is_inner opened registered =
      absurd (cc is_inner)
  add_node-insert ((k, v) ∷ chain) p A (inner w key ts) s
        (inner_rep n B here within out nd val key_e is_null home below) owned is_inner opened
        registered =
      rw (sym val, sym key_e)
        (with_guards k v chain (add_node-insert chain) p A B n ts s here within out nd is_null home
          below owned opened registered)
