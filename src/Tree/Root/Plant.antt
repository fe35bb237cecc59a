-- ===== src/Tree/Root/Plant.antt =====
-- `TreeRoot::addNode` on a root with a whole tree, or with none.
use pmem.Prelude.{
  ℕ, ◌+◌, ◌*◌, ◌<◌, ◌≡◌, refl, sym, ◌∙◌, ◌⊎◌, Bool, true, false, Option, none, some, List, [], ◌∷◌,
  String, inl, inr, arith, Bool-cases, ◌==◌, word, length, ◌&&◌, length,
}
use pmem.Prelude.Result.{Error, allocation_error, assertion_failed, ok, err}
use pmem.Oid.{Oid, null}
use pmem.Memory.Objects.{PersistentPool, State}
use pmem.Memory.Ends
use pmem.Memory.Ends.{Ends, returns, throws}
use pmem.Memory.Pmemobj.{Pmemobj}
use pmem.Ptr.Location.{root_node, member}
use pmem.Ptr.Location.Laws.{write_lem}
use pmem.Pool.Registry.{Pools, find}
use pmem.Text.PersistentBuffer
use pmem.Tree.Schema.{KeyType, same}
use pmem.Tree.Node.Create.{Home}
use pmem.Tree.Node.Nest.{all_fit_at}
use pmem.Tree.Node.Nest.Created.{allocate_nested-Created}
use pmem.Tree.Node.Add.Laws.{node_at_lem}
use pmem.Tree.Node.Add.Beyond.{pool_lem}
use pmem.Tree.Node.Add.Insert.{add_node-insert, refused_lem}
use pmem.Tree.Root.{add_root}
use pmem.Tree.Root.Laws.{this_root_lem}
use pmem.Tree.Root.Planted.{Planted, plant, RootNode-Grows, rooted-Planted}
use pmem.Tree.Shape.{Tree, leaf, inner, nested, insert, depth}
use pmem.Tree.Shape.Depth.{depth-insert}
use Prim.Native.Nat.{max}
use pmem.Tree.Rep.{Rep, inner_rep}
use pmem.Tree.Rep.Alike.{Rep-AlikeOn, AlikeOn-refl}
use pmem.Tree.Rep.Grows.{Grows-outside}

module _ (lib : Pmemobj) (fits : String → Bool) (empty_e : fits "" ≡ true) (pool : PersistentPool)
    (open_pool : (pool.handle == 0) ≡ false) (os : List ℕ) (regs : Pools)
    (listed : find pool.handle regs ≡ some pool) (b : ℕ) (positive : 0 < b)
    (small : b * 32 + 16 < word) (blob : List ℕ)
    (room : PersistentBuffer.HasRoom lib.usable_size blob) (p q : Oid) (home : Home lib pool os p)
    (alive : null p ≡ false) where
  abbrev pub Added : KeyType → Option Tree → State → Type 0
  Added chain old u =
      (t : Tree) × (plant fits blob old chain ≡ ok t)
      × Planted (Home lib pool os) (b * 2) p q (some t) u
      × (u.opened ≡ os)
      × (u.registry ≡ regs)

  abbrev pub NotAdded : KeyType → Option Tree → Error → State → Type 0
  NotAdded chain old e u =
      ((e ≡ allocation_error) ⊎ (plant fits blob old chain ≡ err e))
      × Planted (Home lib pool os) (b * 2) p q old u

  add_first :
      (k v : String) (chain : KeyType) (s : State)
      → Planted (Home lib pool os) b p q none s
      → s.opened ≡ os
      → s.registry ≡ regs
      → Ends
          (λ _ u. Added ((k, v) ∷ chain) none u)
          (NotAdded ((k, v) ∷ chain) none)
          (add_root lib fits p ((k, v) ∷ chain) blob s)
  unfolding add_root nested
  add_first k v chain s (r, rn, schema, is_null) opened registered =
      let keys : KeyType = (k, v) ∷ chain in
      let listed_s : find pool.handle s.registry ≡ some pool = rw registered listed in
      rw (this_root_lem p rn.object r s rn.at rn.is) (
        rw is_null (
          rw (pool_lem lib pool p s (rw opened home) open_pool listed_s) (
            Ends.bind _
              (Ends.mono
                (allocate_nested-Created lib fits empty_e pool open_pool os (b * 2)
                  (omega (arith, positive)) s opened k keys
                  (λ all_e. (all_fit_at fits keys 0 k v all_e refl).0) blob room)
                (λ top u h. h)
                (λ e u (refused, grows). (
                  elim refused [ inl is ↦ inl is | inr (is, no_e) ↦ inr (rw (no_e, is) refl) ],
                  (r, RootNode-Grows rn refl alive grows, schema, is_null),
                )))
              λ top u ((D, rep, grows, live), fit_all).
                let rn' = RootNode-Grows rn refl alive grows in
                let out : D p ≡ false = Grows-outside grows p rn.object rn.at refl in
                let has : member (root_node p) rn'.object.content ≡ some r.node = rw rn'.is refl in
                rw (write_lem (root_node p) r.node u rn'.object rn'.at has top) (
                  returns (
                    nested k keys blob,
                    rw fit_all refl,
                    rooted-Planted rn' schema D out grows.owned rep live refl,
                    grows.opened ∙ opened,
                    grows.registry ∙ registered,
                  )))))

  -- The top node is there: the guards of `TreeRoot::addNode` are also those of `TreeNode::addNode`.
  add_further :
      (k v : String) (chain : KeyType) (t : Tree) (s : State)
      → Planted (Home lib pool os) b p q (some t) s
      → s.opened ≡ os
      → s.registry ≡ regs
      → Ends
          (λ _ u. Added ((k, v) ∷ chain) (some t) u)
          (NotAdded ((k, v) ∷ chain) (some t))
          (add_root lib fits p ((k, v) ∷ chain) blob s)
  unfolding add_root
  add_further k v chain (leaf w old) s (r, rn, schema, live, A, out, owned, rep, is_inner) opened
        registered =
      absurd (cc is_inner)
  add_further k v chain (inner w key ts) s
        (
          r,
          rn,
          schema,
          live,
          A,
          out,
          owned,
          inner_rep n B here within out_b nd val key_e is_null top_home below,
          is_inner,
        )
        opened registered =
      let rep : Rep (Home lib pool os) b s A r.node (inner w key ts) =
        inner_rep n B here within out_b nd val key_e is_null top_home below in
      let kept : Planted (Home lib pool os) (b * 2) p q (some (inner w key ts)) s = (
        r,
        rn,
        schema,
        live,
        A,
        out,
        owned,
        Rep-AlikeOn rep (omega arith) (AlikeOn-refl A s),
        refl,
      ) in
      let stop : fits k && (same key k && fits v) ≡ false
          → NotAdded ((k, v) ∷ chain) (some (inner w key ts)) assertion_failed s =
        λ no_e. (inr (refused_lem fits blob k v chain w key ts no_e), kept) in
      elim (Bool-cases (fits k)) [
        | inr no_e ↦
            rw (this_root_lem p rn.object r s rn.at rn.is) (
              rw live (rw (node_at_lem lib r.node n s nd) (rw no_e (throws (stop (rw no_e refl))))))
        | inl k_fits ↦ elim (Bool-cases (same n.key k)) [
          | inr no_e ↦ rw (this_root_lem p rn.object r s rn.at rn.is) (
              rw live (
                rw (node_at_lem lib r.node n s nd)
                  (rw (k_fits, no_e) (throws (stop (rw (k_fits, sym key_e, no_e) refl))))))
          | inl k_same ↦ rw (this_root_lem p rn.object r s rn.at rn.is) (
              rw live (
                rw (node_at_lem lib r.node n s nd) (
                  rw (k_fits, k_same)
                    (Ends.mono
                      (add_node-insert lib fits empty_e pool open_pool os regs listed b positive
                        small blob room ((k, v) ∷ chain) r.node A (inner w key ts) s rep owned refl
                        opened registered)
                      (λ _ u (t', good, (A', rep', grows)). (
                        t',
                        good,
                        (
                          r,
                          RootNode-Grows rn out alive grows,
                          schema,
                          live,
                          A',
                          Grows-outside grows p rn.object rn.at out,
                          grows.owned,
                          rep',
                          (depth-insert fits
                              (max (depth (inner w key ts)) (length ((k, v) ∷ chain)))
                              ((k, v) ∷ chain) blob (inner w key ts) t' good (omega arith)
                              (omega arith)).1,
                        ),
                        grows.opened ∙ opened,
                        grows.registry ∙ registered,
                      ))
                      (λ e u (bad, (A', rep', grows)). (
                        bad,
                        (
                          r,
                          RootNode-Grows rn out alive grows,
                          schema,
                          live,
                          A',
                          Grows-outside grows p rn.object rn.at out,
                          grows.owned,
                          rep',
                          refl,
                        ),
                      ))))))
        ]
      ]

  -- For a root in a pool that is open and registered, with no tree or with one as in
  -- `add_node-insert` that the root is apart from, and for data that fit as there:
  -- `TreeRoot::addNode` ends with the tree that is meant below the root, which is the insertion
  -- into its tree or, for a first one, the chain of nodes above the leaf, below a top node whose
  -- value is the first key; or it throws an allocation error or the error that is meant, and the
  -- root has the tree from before, or none.
  pub add_root-plant :
      (chain : KeyType) (old : Option Tree) (s : State)
      → Planted (Home lib pool os) b p q old s
      → s.opened ≡ os
      → s.registry ≡ regs
      → Ends (λ _ u. Added chain old u) (NotAdded chain old) (add_root lib fits p chain blob s)
  unfolding add_root insert
  add_root-plant ((k, v) ∷ chain) none s planted opened registered =
      add_first k v chain s planted opened registered
  add_root-plant ((k, v) ∷ chain) (some t) s planted opened registered =
      add_further k v chain t s planted opened registered
  add_root-plant [] none s planted opened registered = throws (inr refl, planted)
  add_root-plant [] (some t) s (r, rn, schema, live, A, out, owned, rep, is_inner) opened
        registered =
      throws (
        inr refl,
        (
          r,
          rn,
          schema,
          live,
          A,
          out,
          owned,
          Rep-AlikeOn rep (omega arith) (AlikeOn-refl A s),
          is_inner,
        ),
      )
