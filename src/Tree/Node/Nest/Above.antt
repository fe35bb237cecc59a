-- ===== src/Tree/Node/Nest/Above.antt =====
-- A new node above a new tree.
use pmem.Prelude.{
  ℕ, ◌≤◌, ◌≡◌, refl, ap, sym, ◌∙◌, inl, inr, Bool, true, false, List, String, arith, Bool-cases,
  ◌==◌,
}
use pmem.Oid.{Oid, oid_null, oid_eq_self}
use pmem.Memory.Objects.{node, TreeNode, PersistentPool, State}
use pmem.Memory.Ends
use pmem.Memory.Ends.{Ends, returns, throws}
use pmem.Memory.Pmemobj.{Pmemobj, inside}
use pmem.Ptr.Location.{items}
use pmem.PersistentVector.{push_back_elem}
use pmem.PersistentVector.Standing.{ne_of_free}
use pmem.Tree.Node.{node_type, data_type, sizeof_node}
use pmem.Tree.Node.Add.Laws.{Node}
use pmem.Tree.Node.Create.{Home, Created, NotCreated}
use pmem.Tree.Shape.{Tree, inner, end, more}
use pmem.Tree.Rep.{no_items}
use pmem.Tree.Rep.Alike.{Rep-AlikeOn}
use pmem.Tree.Rep.Quiet.{Quiet-AlikeOn}
use pmem.Tree.Rep.Grows.{nowhere, nowhere-Within, Grows-trans, Grows-less, Quiet-Owned}
use pmem.Tree.Rep.Push.{single, snoc}
use pmem.Tree.Rep.Rebuilt.{Opened, none_yet}
use pmem.Tree.Rep.Attach.{attach}
use pmem.Tree.Rep.Fresh.{New, New-Grows}

module _ (lib : Pmemobj) (fits : String → Bool) (empty_e : fits "" ≡ true) (pool : PersistentPool)
    (open_pool : (pool.handle == 0) ≡ false) (os : List ℕ) (b : ℕ) (room : 2 ≤ b) (s : State)
    (here : s.opened ≡ os) where
  -- A new node gets its only sub-node.
  pub above :
      (k v : String) (c : Oid) (one : Tree) (t : State) (p : Oid) (u : State)
      → Created (Home lib pool os) b s one c t
      → New lib pool.handle t p
          (record {
            type_num = node_type;
            size = sizeof_node;
            content = node (record { items = oid_null; payload = oid_null; value = v; key = k });
          })
          u
      → Ends
          (λ _ w. Created (Home lib pool os) b s (inner v k (more one end)) p w)
          (NotCreated s true)
          (push_back_elem lib data_type (items p) c u)
  unfolding snoc
  above k v c one t p u (D, rep, grows, alive) new =
      let n : TreeNode = record { items = oid_null; payload = oid_null; value = v; key = k } in
      let nd : Node p n u = record { object = _; at = new.at; typed = refl; is = refl } in
      let opened : u.opened ≡ os = new.quiet.opened ∙ grows.opened ∙ here in
      let home : Home lib pool os p =
        ap (λ l. lib.pool_by_ptr (inside p) l) (sym (grows.opened ∙ here)) ∙ new.home in
      let mapped : (lib.pool_by_ptr (inside p) u.opened == 0) ≡ false =
        rw (opened, home) open_pool in
      let both = Grows-trans grows (New-Grows D grows.owned new) in
      let parts : Opened (Home lib pool os) b u nowhere oid_null end =
        none_yet (omega (arith, room)) refl in
      let apart : (q : Oid) → single p q ≡ true → D q ≡ false = λ q same. elim (Bool-cases (D q)) [
        | inl found ↦
            let (o, at, alive') = grows.owned q found in
            absurd (cc (same, ne_of_free t.heap p q o new.free at))
        | inr away ↦ away
      ] in
      Ends.mono
        (attach lib (Home lib pool os) b b u p n nd refl home mapped (single p) nowhere
          (Grows-less (single p) (λ q found. rw found refl) both).owned (oid_eq_self p)
          (nowhere-Within (single p)) refl end (no_items refl) parts (omega arith) room
          (omega arith) c D one (Rep-AlikeOn rep (omega arith) (Quiet-AlikeOn D new.quiet))
          (Quiet-Owned grows.owned new.quiet) apart alive)
        (λ _ w (A', rep', grows'). (A', rep', Grows-trans both grows', new.alive))
        (λ e w (is, A', rep', grows'). (
          inl is,
          Grows-less nowhere (nowhere-Within _)
              (Grows-trans (Grows-less (single p) (λ q found. rw found refl) both) grows'),
        ))
