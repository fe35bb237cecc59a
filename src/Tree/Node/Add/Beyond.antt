-- ===== src/Tree/Node/Add/Beyond.antt =====
-- The last lines of `addNode`: a new sub-node for a value that no sub-node has.
use pmem.Prelude.{
  ℕ, ◌+◌, ◌*◌, ◌<◌, ◌≡◌, refl, ◌∙◌, inl, Bool, true, false, some, List, String, arith, ◌==◌, word,
}
use pmem.Prelude.Result.{allocation_error, ok}
use pmem.Oid.{Oid, null}
use pmem.Memory.Objects.{TreeNode, PersistentPool, State}
use pmem.Memory.Access.{◌>>=◌}
use pmem.Memory.Ends
use pmem.Memory.Ends.{Ends}
use pmem.Memory.Pmemobj.{Pmemobj, inside}
use pmem.Ptr.Location.{items}
use pmem.PersistentVector.{push_back_elem}
use pmem.Pool.Registry.{find, pool_from_pointer}
use pmem.Text.PersistentBuffer
use pmem.Tree.Schema.{KeyType}
use pmem.Tree.Node.{data_type, allocate_nested}
use pmem.Tree.Node.Create.{Home}
use pmem.Tree.Node.Nest.Created.{allocate_nested-Created}
use pmem.Tree.Node.Add.Laws.{Node}
use pmem.Tree.Node.Add.Grown.{Grown, Grown-beside}
use pmem.Tree.Shape.{Tree, inner, Trees, all_fit, nested}
use pmem.Tree.Rep.{Region, Within, Rep, inner_rep, Items}
use pmem.Tree.Rep.Alike.{AlikeOn, Items-AlikeOn, AlikeOn-Within, Node-Twin}
use pmem.Tree.Rep.Grows.{
  nowhere, nowhere-Within, Owned, Grows, Grows-trans, Grows-swap, Grows-less, Apart-grown,
  kept-AlikeOn,
}
use pmem.Tree.Rep.Push.{union, snoc}
use pmem.Tree.Rep.Fresh.{Refusal}
use pmem.Tree.Rep.Rebuilt.{Opened, Items-Opened}
use pmem.Tree.Rep.Attach.{attach}

pub pool_lem :
    (lib : Pmemobj) (pool : PersistentPool) (p : Oid) (s : State)
    → lib.pool_by_ptr (inside p) s.opened ≡ pool.handle
    → (pool.handle == 0) ≡ false
    → find pool.handle s.registry ≡ some pool
    → pool_from_pointer lib (inside p) s ≡ (ok pool, s)
unfolding pool_from_pointer
pool_lem lib pool p s home open_e listed = rw home (rw open_e (rw listed refl))

module _ (lib : Pmemobj) (fits : String → Bool) (empty_e : fits "" ≡ true) (pool : PersistentPool)
    (open_pool : (pool.handle == 0) ≡ false) (os : List ℕ) (b : ℕ) (positive : 0 < b)
    (small : b * 32 + 16 < word) (s : State) (opened : s.opened ≡ os)
    (listed : find pool.handle s.registry ≡ some pool) (p : Oid) (n : TreeNode) (nd : Node p n s)
    (no_data : null n.payload ≡ true) (home : Home lib pool os p) (A B : Region) (owned : Owned A s)
    (here : A p ≡ true) (within : Within B A) (out : B p ≡ false) (ts : Trees)
    (below : Items (Home lib pool os) b s B n.items ts) where
  rep_now : Rep (Home lib pool os) b s A p (inner n.value n.key ts)
  rep_now = inner_rep n B here within out nd refl refl no_data home below

  abbrev pub Now : Tree → State → Type 0
  Now t u = Grown (Home lib pool os) (b * 2) s A p t u

  -- The new sub-tree is there, and its top node is made the last sub-node.
  push_last :
      (q : Oid) (D : Region) (t : Tree) (u : State)
      → Rep (Home lib pool os) (b * 2) u D q t
      → Grows s nowhere u D
      → null q ≡ false
      → Ends
          (λ _ w. Now (inner n.value n.key (snoc ts t)) w)
          (λ e w. (e ≡ allocation_error) × Now (inner n.value n.key ts) w)
          (push_back_elem lib data_type (items p) q u)
  push_last q D t u rep grows alive =
      let alike : AlikeOn A s u = kept-AlikeOn nowhere D grows A owned (λ r found. refl) in
      let both : Grows s A u (union A D) =
        Grows-less (union A D) (λ r found. ground arith)
          (Grows-swap nowhere D grows A owned (nowhere-Within A)) in
      let kept : Grows s A u A = Grows-less A (λ r found. rw found refl) both in
      let below' : Items (Home lib pool os) b u B n.items ts =
        Items-AlikeOn below (omega arith) (AlikeOn-Within s u within alike) in
      let parts : Opened (Home lib pool os) b u B n.items ts = Items-Opened positive below' in
      let mapped : (lib.pool_by_ptr (inside p) u.opened == 0) ≡ false =
        rw (grows.opened ∙ opened, home) open_pool in
      Ends.mono
        (attach lib (Home lib pool os) b (b * 2) u p n (Node-Twin nd (alike p nd.object here nd.at))
          no_data home mapped A B kept.owned here within out ts below' parts (omega arith)
          (omega (arith, parts.small)) (omega (arith, parts.small, small)) q D t rep grows.owned
          (Apart-grown nowhere D grows A owned (λ r found. refl)) alive)
        (λ _ w (A', rep', grows'). (A', rep', Grows-trans both grows'))
        (λ e w (is, A', rep', grows'). (is, (A', rep', Grows-trans kept grows')))

  pub beyond :
      (v : String) (chain : KeyType) (blob : List ℕ)
      (room : PersistentBuffer.HasRoom lib.usable_size blob)
      → fits v ≡ true
      → Ends
          (λ _ w.
            (all_fit fits chain ≡ true)
            × Now (inner n.value n.key (snoc ts (nested v chain blob))) w)
          (λ e w. Refusal (all_fit fits chain) e × Now (inner n.value n.key ts) w)
          ((do
            pool ← pool_from_pointer lib (inside p)
            q ← allocate_nested lib fits pool v chain blob
            push_back_elem lib data_type (items p) q)
            s)
  beyond v chain blob room fit =
      let home_now : lib.pool_by_ptr (inside p) s.opened ≡ pool.handle = rw opened home in
      rw (pool_lem lib pool p s home_now open_pool listed) (
        Ends.bind _
          (Ends.mono
            (allocate_nested-Created lib fits empty_e pool open_pool os (b * 2)
              (omega (arith, positive)) s opened v chain (λ all_e. fit) blob room)
            (λ q u h. h)
            (λ e u (refused, grows). (refused, Grown-beside rep_now owned (omega arith) grows)))
          λ q u ((D, rep, grows, alive), fit_all).
            Ends.mono (push_last q D (nested v chain blob) u rep grows alive)
              (λ _ w h. (fit_all, h)) (λ e w (is, h). (inl is, h)))
