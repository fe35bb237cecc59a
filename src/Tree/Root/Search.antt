-- ===== src/Tree/Root/Search.antt =====
-- `TreeObject::lookup` on a root with a whole tree.
use pmem.Prelude.{ℕ, ◌≤◌, ◌≡◌, Bool, false, some, List, String, ◌==◌}
use pmem.Oid.{Oid}
use pmem.Memory.Objects.{PersistentPool, State}
use pmem.Memory.Ends
use pmem.Memory.Ends.{Ends, returns, throws}
use pmem.Memory.Pmemobj.{Pmemobj}
use pmem.Tree.Schema.{StringDict, find}
use pmem.Tree.Node.Create.{Home}
use pmem.Tree.Node.Add.Laws.{node_at_lem}
use pmem.Tree.Node.Lookup.Laws.{Fit}
use pmem.Tree.Node.Lookup.Found.{Found}
use pmem.Tree.Node.Lookup.Matches.{lookup-matches}
use pmem.Tree.Root.{lookup}
use pmem.Tree.Root.Laws.{this_root_lem}
use pmem.Tree.Root.Planted.{Planted}
use pmem.Tree.Shape.{Tree, depth, matches}
use pmem.Tree.Rep.Head.{Rep-Head}

module _ (lib : Pmemobj) (fits : String → Bool) (pool : PersistentPool)
    (open_pool : (pool.handle == 0) ≡ false) (os : List ℕ) (p q : Oid) where
  -- A lookup on a root with a tree.
  pub lookup-Found :
      (c : ℕ) (request : StringDict) (fuel : ℕ) (t : Tree) (s : State)
      → ((k : String) → Fit fits (find k request))
      → Planted (Home lib pool os) c p q (some t) s
      → s.opened ≡ os
      → depth t ≤ fuel
      → Ends
          (λ r u. Found (Home lib pool os) c u r (matches request t))
          (λ e u. ⊥)
          (lookup lib fuel fits p request s)
  unfolding lookup
  lookup-Found c request fuel t s request_fits (r, rn, schema, live, A, out, owned, rep, is_inner)
        opened deep =
      let (n, nd, val, lf) = Rep-Head (Home lib pool os) c rep in
      rw (this_root_lem p rn.object r s rn.at rn.is) (
        rw live (
          rw (node_at_lem lib r.node n s nd) (
            Ends.mono
              (lookup-matches lib os (Home lib pool os) c request fits request_fits
                (λ x at_home. rw at_home open_pool) fuel r.node A t s rep opened is_inner deep)
              (λ found u h. h.0) (λ e u h. h))))
