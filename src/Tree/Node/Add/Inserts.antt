-- ===== src/Tree/Node/Add/Inserts.antt =====
-- `addNode` on a whole tree of nodes, whose objects lie apart from each other.
use pmem.Prelude.{
  ℕ, ◌+◌, ◌*◌, ◌<◌, ◌≡◌, refl, ap, ◌∙◌, ◌⊎◌, inl, inr, Bool, true, false, some, List, ◌∷◌, String,
  arith, Bool-cases, ◌==◌, word,
}
use pmem.Prelude.Result.{Error, allocation_error, leaf_exists, Result, ok, err}
use pmem.Oid.{Oid, null, oid_eq}
use pmem.Memory.Objects.{TreeNode, PersistentPool, State}
use pmem.Memory.Access.{◌>>=◌}
use pmem.Memory.Ends
use pmem.Memory.Ends.{Ends, returns, throws}
use pmem.Memory.Pmemobj.{Pmemobj, inside}
use pmem.Ptr.Location.{items}
use pmem.PersistentVector.{push_back_elem}
use pmem.PersistentVector.Standing.{Stored, oid_eq_comm}
use pmem.Pool.Registry.{Pools, find, pool_from_pointer}
use pmem.Text.PersistentBuffer
use pmem.Tree.Schema.{KeyType, same}
use pmem.Tree.Node.{data_type, allocate_nested}
use pmem.Tree.Node.Create.{Home}
use pmem.Tree.Node.Add.{add_node}
use pmem.Tree.Node.Add.Laws.{Node, first_match, node_at_lem}
use pmem.Tree.Node.Add.Exists.{this_node_lem}
use pmem.Tree.Node.Add.Beyond.{beyond}
use pmem.Tree.Node.Add.Found.{find-Quiet, ne_of_null}
use pmem.Tree.Node.Add.Grown.{Grown, Grown-Quiet, regrown}
use pmem.Tree.Shape.{Tree, inner, Trees, is_leaf, insert, insert_in, fresh, with_head}
use pmem.Tree.Rep.{Region, Within, Rep, inner_rep, Items}
use pmem.Tree.Rep.Alike.{Rep-AlikeOn, Items-AlikeOn, Node-Twin}
use pmem.Tree.Rep.Quiet.{Quiet, Quiet-AlikeOn}
use pmem.Tree.Rep.Grows.{Owned, Grows-trans, Quiet-Grows, Quiet-Owned}
use pmem.Tree.Rep.Push.{snoc, ne_of_member, out_of_part}
use pmem.Tree.Rep.Rebuilt.{Opened, Items-Opened}
use pmem.Tree.Rep.Focus.{focus, Hit, with_put}

module _ (lib : Pmemobj) (fits : String → Bool) (empty_e : fits "" ≡ true) (pool : PersistentPool)
    (open_pool : (pool.handle == 0) ≡ false) (os : List ℕ) (regs : Pools)
    (listed : find pool.handle regs ≡ some pool) (b : ℕ) (positive : 0 < b)
    (small : b * 32 + 16 < word) (blob : List ℕ)
    (room : PersistentBuffer.HasRoom lib.usable_size blob) where
  -- How an insertion ends: with the tree that is meant, or with the tree as it was.
  abbrev pub Inserted : KeyType → State → Region → Oid → Tree → State → Type 0
  Inserted chain s A p t u =
      (t' : Tree) × (insert fits chain blob t ≡ ok t') × Grown (Home lib pool os) (b * 2) s A p t' u

  abbrev pub NotInserted : KeyType → State → Region → Oid → Tree → Error → State → Type 0
  NotInserted chain s A p t e u =
      ((e ≡ allocation_error) ⊎ (insert fits chain blob t ≡ err e))
      × Grown (Home lib pool os) (b * 2) s A p t u

  -- `addNode` with a key inserts into each tree.
  abbrev pub Inserts : KeyType → Type 0
  Inserts chain =
      (p : Oid) (A : Region) (t : Tree) (s : State)
      → Rep (Home lib pool os) b s A p t
      → Owned A s
      → is_leaf t ≡ false
      → s.opened ≡ os
      → s.registry ≡ regs
      → Ends (λ _ u. Inserted chain s A p t u) (NotInserted chain s A p t)
          (add_node lib fits p chain blob s)

  module _ (k v : String) (chain : KeyType) (next : Inserts chain) (k_fits : fits k ≡ true)
      (v_fits : fits v ≡ true) (s : State) (opened : s.opened ≡ os) (registered : s.registry ≡ regs)
      (p : Oid) (n : TreeNode) (nd : Node p n s) (no_data : null n.payload ≡ true)
      (home : Home lib pool os p) (k_same : same n.key k ≡ true) (A B : Region) (owned : Owned A s)
      (here : A p ≡ true) (within : Within B A) (out : B p ≡ false) (ts : Trees)
      (below : Items (Home lib pool os) b s B n.items ts) where
    abbrev top : Tree
    top = inner n.value n.key ts

    rep_now : Rep (Home lib pool os) b s A p top
    rep_now = inner_rep n B here within out nd refl refl no_data home below

    mapped : (lib.pool_by_ptr (inside p) s.opened == 0) ≡ false
    mapped = rw (opened, home) open_pool

    -- What is meant, when the guards have been passed.
    insert_lem :
        insert fits ((k, v) ∷ chain) blob top
        ≡ with_head n.value n.key
            (insert_in (insert fits chain blob) v (fresh fits v chain blob) ts)
    unfolding insert
    insert_lem = rw (k_fits, k_same) (rw v_fits refl)

    -- No sub-node has the value.
    missing :
        (u : State)
        → Quiet s u
        → ((go : Tree → Result Tree) (new : Result Tree)
            → insert_in go v new ts ≡ with_put (snoc ts) new)
        → Ends
            (λ _ w. Inserted ((k, v) ∷ chain) s A p top w)
            (NotInserted ((k, v) ∷ chain) s A p top)
            ((do
              pool ← pool_from_pointer lib (inside p)
              q ← allocate_nested lib fits pool v chain blob
              push_back_elem lib data_type (items p) q)
              u)
    missing u quiet inserted =
        let listed_u : find pool.handle u.registry ≡ some pool =
          rw (quiet.registry ∙ registered) listed in
        let meant = insert_lem ∙ ap (with_head n.value n.key) (inserted _ _) in
        Ends.mono
          (beyond lib fits empty_e pool open_pool os b positive small u (quiet.opened ∙ opened)
            listed_u p n (Node-Twin nd (quiet.alike p nd.object refl nd.at)) no_data home A B
            (Quiet-Owned owned quiet) here within out ts
            (Items-AlikeOn below (omega arith) (Quiet-AlikeOn B quiet)) v chain blob room v_fits)
          (λ _ w (all_e, (A', rep, grows)).
            (_, meant ∙ rw all_e refl, (A', rep, Grows-trans (Quiet-Grows owned quiet) grows)))
          (λ e w (refused, (A', rep, grows)). (
            elim refused [ inl is ↦ inl is | inr (is, no_e) ↦ inr (meant ∙ rw (no_e, is) refl) ],
            (A', rep, Grows-trans (Quiet-Grows owned quiet) grows),
          ))

    parts : Opened (Home lib pool os) b s B n.items ts
    parts = Items-Opened positive below

    region-Owned : Owned parts.region s
    region-Owned q found = owned q (within q (parts.within q found))

    region_out : parts.region p ≡ false
    region_out = out_of_part B parts.region p parts.within out

    stored_now :
        (c : Oid) (ns : List TreeNode)
        → first_match v parts.elems ns ≡ some c
        → Stored data_type parts.slots n.items parts.elems s × (B n.items ≡ true)
    stored_now c ns first = elim parts.start [
      | inl (is_null, none_e) ↦ absurd (cc (rw none_e at first))
      | inr k ↦
          (k, elim parts.was [ inl in_b ↦ in_b | inr is_null ↦ absurd (cc (is_null, k.alive)) ])
    ]

    -- A sub-node has the value.
    module _ {ns : List TreeNode}
        (h : Hit (Home lib pool os) b s v parts.region parts.elems ts ns) where
      changed :
          (t : Tree) (u : State)
          → Grown (Home lib pool os) (b * 2) s h.region h.address t u
          → Grown (Home lib pool os) (b * 2) s A p (inner n.value n.key (h.put t)) u
      changed t u (D, rep, grows) =
          let (k', in_b) = stored_now h.address ns h.first in
          regrown here within out nd no_data home owned parts.small in_b parts.within parts.out k' h
            (omega arith) grows rep

      met_leaf :
          (u : State)
          → Quiet s u
          → is_leaf h.tree ≡ true
          → NotInserted ((k, v) ∷ chain) s A p top leaf_exists u
      met_leaf u quiet is =
          let meant = insert_lem ∙ ap (with_head n.value n.key) (h.inserted _ _) in
          (inr (meant ∙ rw is refl), Grown-Quiet rep_now owned (omega arith) quiet)

      met_inner :
          (u : State)
          → Quiet s u
          → is_leaf h.tree ≡ false
          → Ends
              (λ _ w. Inserted ((k, v) ∷ chain) s A p top w)
              (NotInserted ((k, v) ∷ chain) s A p top)
              (add_node lib fits h.address chain blob u)
      met_inner u quiet is =
          let meant = insert_lem ∙ ap (with_head n.value n.key) (h.inserted _ _) in
          let own_h : Owned h.region s = λ q found. region-Owned q (h.within q found) in
          let from = Quiet-Grows own_h quiet in
          Ends.mono
            (next h.address h.region h.tree u
              (Rep-AlikeOn h.rep (omega arith) (Quiet-AlikeOn h.region quiet)) from.owned is
              (quiet.opened ∙ opened) (quiet.registry ∙ registered))
            (λ _ w (t', good, (D, rep, grows)).
              (_, meant ∙ rw (is, good) refl, changed t' w (D, rep, Grows-trans from grows)))
            (λ e w (bad, (D, rep, grows)).
              let same_tree = changed h.tree w (D, rep, Grows-trans from grows) in
              (
                elim bad [ inl is_e ↦ inl is_e | inr bad_e ↦ inr (meant ∙ rw (is, bad_e) refl) ],
                rw h.put_tree at same_tree,
              ))

    away : oid_eq p n.items ≡ false
    away = elim parts.was [
      | inl in_b ↦ oid_eq_comm n.items p (ne_of_member B n.items p in_b out)
      | inr is_null ↦ ne_of_null p n.items (owned p here).2 is_null
    ]

    pub past_guards :
        Ends
          (λ _ w. Inserted ((k, v) ∷ chain) s A p top w)
          (NotInserted ((k, v) ∷ chain) s A p top)
          (add_node lib fits p ((k, v) ∷ chain) blob s)
    unfolding add_node
    past_guards =
        let (ns, nodes, found) =
          focus (Home lib pool os) b s p v parts.region parts.elems ts region-Owned region_out
            parts.each in
        rw (this_node_lem p nd.object n s nd.at nd.is) (
          rw (k_fits, k_same)
            (rw (no_data, v_fits)
              (Ends.bind _
                (Ends.mono
                  (find-Quiet lib p n s nd v parts.slots parts.elems ns away mapped parts.start
                    nodes)
                  (λ r u h. h) (λ e u h. absurd h))
                λ r u (is, quiet). elim found [
                  | inl (miss, inserted) ↦ rw (is ∙ miss) (missing u quiet inserted)
                  | inr h ↦ rw (is ∙ h.first) (
                      rw
                        (node_at_lem lib h.address h.child u
                          (Node-Twin h.at (quiet.alike h.address h.at.object refl h.at.at)))
                        (elim (Bool-cases (is_leaf h.tree)) [
                          | inl leaf_e ↦ rw (h.leaf_e ∙ leaf_e) (throws (met_leaf h u quiet leaf_e))
                          | inr inner_e ↦ rw (h.leaf_e ∙ inner_e) (met_inner h u quiet inner_e)
                        ]))
                ])))
