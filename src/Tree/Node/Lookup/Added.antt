-- ===== src/Tree/Node/Lookup/Added.antt =====
-- A lookup after an insertion.
use pmem.Prelude.{
  ℕ, ◌+◌, ◌*◌, ◌<◌, ◌≤◌, ◌≡◌, ◌∙◌, Bool, true, false, some, List, String, ◌==◌, word, length,
}
use pmem.Oid.{Oid}
use pmem.Memory.Objects.{PersistentPool, State}
use pmem.Memory.Access.{◌>>◌}
use pmem.Memory.Ends
use pmem.Memory.Ends.{Ends}
use pmem.Memory.Pmemobj.{Pmemobj}
use pmem.Pool.Registry.{Pools, find}
use pmem.Text.PersistentBuffer
use pmem.Tree.Schema.{StringDict, KeyType, find as find_value}
use pmem.Tree.Node.Create.{Home}
use pmem.Tree.Node.Add.{add_node}
use pmem.Tree.Node.Add.Inserts.{NotInserted}
use pmem.Tree.Node.Add.Insert.{add_node-insert}
use pmem.Tree.Node.Lookup.{lookup}
use pmem.Tree.Node.Lookup.Laws.{Fit}
use pmem.Tree.Node.Lookup.Found.{Found}
use pmem.Tree.Node.Lookup.Matches.{lookup-matches}
use pmem.Tree.Shape.{Tree, is_leaf, matches, depth}
use pmem.Tree.Shape.Added.{Added}
use pmem.Tree.Shape.Laws.{found_of, insert-Added}
use pmem.Tree.Shape.Depth.{depth-insert}
use pmem.Tree.Rep.{Region, Rep}
use pmem.Tree.Rep.Grows.{Owned}

module _ (lib : Pmemobj) (fits : String → Bool) (empty_e : fits "" ≡ true) (pool : PersistentPool)
    (open_pool : (pool.handle == 0) ≡ false) (os : List ℕ) (regs : Pools)
    (listed : find pool.handle regs ≡ some pool) (b : ℕ) (positive : 0 < b)
    (small : b * 32 + 16 < word) (blob : List ℕ)
    (room : PersistentBuffer.HasRoom lib.usable_size blob) (request : StringDict)
    (request_fits : (k : String) → Fit fits (find_value k request)) where
  -- For a tree of nodes and data as in `add_node-insert`, a request whose values fit, and a bound
  -- that neither the tree's depth nor the chain's length exceeds: `addNode` and then `lookup` of
  -- the request give the addresses of the leaves that matched before the insertion, in their
  -- order, with the new leaf among them exactly if the request has no other value for a key of
  -- the chain; or `addNode` throws, as in `add_node-insert`.
  pub lookup-add_node :
      (fuel : ℕ) (chain : KeyType) (p : Oid) (A : Region) (t : Tree) (s : State)
      → Rep (Home lib pool os) b s A p t
      → Owned A s
      → is_leaf t ≡ false
      → s.opened ≡ os
      → s.registry ≡ regs
      → depth t ≤ fuel
      → length chain ≤ fuel
      → Ends
          (λ r u.
            (found : List Tree) × Found (Home lib pool os) (b * 2) u r found
            × Added (matches request t) found (found_of request chain blob))
          (NotInserted lib fits empty_e pool open_pool os regs listed b positive small blob room
            chain s A p t)
          ((do add_node lib fits p chain blob; lookup lib fuel fits p request) s)
  lookup-add_node fuel chain p A t s rep owned is_inner opened registered deep long =
      Ends.bind _
        (add_node-insert lib fits empty_e pool open_pool os regs listed b positive small blob room
          chain p A t s rep owned is_inner opened registered)
        λ _ u (t', good, (A', rep', grows)).
          let (deep', inner') = depth-insert fits fuel chain blob t t' good deep long in
          Ends.mono
            (lookup-matches lib os (Home lib pool os) (b * 2) request fits request_fits
              (λ q home. rw home open_pool) fuel p A' t' u rep' (grows.opened ∙ opened) inner'
              deep')
            (λ r w (found, quiet). (
              matches request t',
              found,
              (insert-Added fits request chain blob t t' is_inner good).1,
            ))
            (λ e w h. absurd h)
