-- ===== src/Tree/Node/Lookup/Matches.antt =====
-- A lookup in a whole tree of nodes, whose objects lie apart from each other.
use pmem.Prelude.{
  ℕ, zero, suc, ◌≡◌, ◌<◌, ◌≤◌, refl, ap, sym, ◌∙◌, inl, inr, Bool, true, false, some, List, [], ◌∷◌,
  ◌++◌, String, arith, length, get_elem?, get_elem?-append, length-append, append_assoc, ltb, ◌==◌,
  if◌then◌else◌, Bool-cases,
}
use pmem.Oid.{Oid, null, oid_eq}
use pmem.Memory.Objects.{TreeNode, State}
use pmem.Memory.Access.{M, pure, ◌>>=◌}
use pmem.Memory.Ends
use pmem.Memory.Ends.{Ends, returns, throws}
use pmem.Memory.Pmemobj.{Pmemobj, inside}
use pmem.Ptr.Location.{items, member}
use pmem.Ptr.Location.Laws.{read_lem}
use pmem.PersistentVector
use pmem.PersistentVector.Push.{fits_now}
use pmem.Tree.Schema.{StringDict, find}
use pmem.Tree.Node.{data_type, leaf as holds_data}
use pmem.Tree.Node.Add.Laws.{Node, node_at_lem, length-snoc}
use pmem.Tree.Node.Add.Exists.{this_node_lem}
use pmem.Tree.Node.Lookup.Found.{Found, Found-append, Found-Quiet, Found-one}
use pmem.Tree.Node.Lookup.{collect, lookup}
use pmem.Tree.Node.Lookup.Laws.{Fit, wanted_lem}
use pmem.Tree.Shape.{
  Tree, leaf, inner, Trees, end, more, value_of, is_leaf, chosen, matches, gather, depth, depth_all,
}
use pmem.Tree.Rep.{Region, Rep, inner_rep, no_items, some_items, Each, none_each, more_each}
use pmem.Tree.Rep.Alike.{Rep-AlikeOn, Each-AlikeOn}
use pmem.Tree.Rep.Head.{Rep-Head}
use pmem.Tree.Rep.Push.{ne_of_member}
use pmem.PersistentVector.Standing.{oid_eq_comm}
use pmem.Tree.Rep.Quiet.{
  Quiet, Quiet-refl, Quiet-trans, Quiet-AlikeOn, Ready, Ready-Quiet, size-Quiet, allocated-Quiet,
  element-Quiet,
}

module _ (lib : Pmemobj) (os : List ℕ) (H : Oid → Type 0) (b : ℕ) (request : StringDict) where
  -- What a lookup in one tree answers.
  abbrev Answer : List Tree → State → List Oid → State → Type 0
  Answer ts s r u = Found H b u r ts × Quiet s u

  abbrev Goes : ℕ → (Oid → M (List Oid)) → Type 0
  Goes fuel go =
      (c : Oid) (A : Region) (t : Tree) (u : State)
      → Rep H b u A c t
      → u.opened ≡ os
      → is_leaf t ≡ false
      → depth t ≤ fuel
      → Ends (Answer (matches request t) u) (λ e w. ⊥) (go c u)

  here_tree :
      (fuel : ℕ) (go : Oid → M (List Oid)) (test : String → Bool) (c : Oid) (A : Region) (t : Tree)
      (n : TreeNode) (u : State)
      → Goes fuel go
      → Rep H b u A c t
      → u.opened ≡ os
      → depth t ≤ fuel
      → n.value ≡ value_of t
      → holds_data n ≡ is_leaf t
      → Ends
          (Answer (if test (value_of t) then matches request t else []) u)
          (λ e w. ⊥)
          ((if test n.value then (if holds_data n then pure (c ∷ []) else go c) else pure []) u)
  here_tree fuel go test c A t n u goes rep opened deep val lf =
      rw val (elim (Bool-cases (test (value_of t))) [
        | inl yes_e ↦ rw yes_e (elim (Bool-cases (is_leaf t)) [
          | inl is ↦ rw (lf, is) (returns (Found-one H b request t is rep, Quiet-refl u))
          | inr is ↦ rw (lf, is) (goes c A t u rep opened is deep)
        ])
        | inr no_e ↦ rw no_e (returns (tt, Quiet-refl u))
      ])

  module _ (p : Oid) (n : TreeNode) (apart : oid_eq p n.items ≡ false)
      (mapped : (lib.pool_by_ptr (inside p) os == 0) ≡ false) (m : ℕ) (all : List Oid) (fuel : ℕ)
      (go : Oid → M (List Oid)) (goes : Goes fuel go) (test : String → Bool) where
    collect_tree :
        (rounds : ℕ) (pre xs : List Oid) (C : Region) (ts : Trees) (s : State)
        → pre ++ xs ≡ all
        → Each H b s C xs ts
        → Ready os p n m all s
        → depth_all ts ≤ fuel
        → length xs < rounds
        → Ends
            (Answer (gather request test ts) s)
            (λ e u. ⊥)
            (collect lib go test rounds p (length pre) s)
    unfolding collect gather depth_all
    collect_tree zero pre xs C ts s split each ready deep room = absurd (omega (arith, room))
    collect_tree (suc rounds) pre [] C end s split none_each ready deep room =
        Ends.bind _ (size-Quiet lib apart mapped ready) λ sz t (is, h).
          let over : ltb (length pre) sz ≡ false =
            ground (arith, is, ap length split, length-append pre []) in
          rw over (returns (tt, h))
    collect_tree (suc rounds) pre (c ∷ xs) C (more one ts) s split
          (more_each D E in_d in_e apart' first rest) ready deep room =
        Ends.bind _ (size-Quiet lib apart mapped ready) λ sz t (is, h).
          let further : ltb (length pre) sz ≡ true =
            ground (arith, is, ap length split, length-append pre (c ∷ xs)) in
          rw further (
            Ends.bind _
              (element-Quiet lib apart mapped (Ready-Quiet ready h) (length pre) c
                (ap (λ l. get_elem? l (length pre)) (sym split) ∙ get_elem?-append pre xs c))
              λ d u (it, h'). rw it (
                let quiet = Quiet-trans h h' in
                let (n', nd, val, lf) =
                  Rep-Head H b (Rep-AlikeOn first (omega arith) (Quiet-AlikeOn D quiet)) in
                rw (node_at_lem lib c n' u nd) (
                  Ends.bind _
                    (here_tree fuel go test c D one n' u goes
                      (Rep-AlikeOn first (omega arith) (Quiet-AlikeOn D quiet))
                      (quiet.opened ∙ ready.opened) (omega (arith, deep)) val lf)
                    λ here w (is_here, h2).
                      let quiet' = Quiet-trans quiet h2 in
                      let next =
                        collect_tree rounds (pre ++ c ∷ []) xs E ts w
                          (append_assoc pre (c ∷ []) xs ∙ split)
                          (Each-AlikeOn rest (omega arith) (Quiet-AlikeOn E quiet'))
                          (Ready-Quiet ready quiet') (omega (arith, deep)) (omega arith) in
                      Ends.bind _ (rw (length-snoc pre c) at next) λ later x (is_later, h3).
                        returns (
                          Found-append H b x here later _ _ (Found-Quiet H b w x here _ is_here h3)
                              is_later,
                          Quiet-trans quiet' h3,
                        ))))
    collect_tree (suc rounds) pre [] C (more one ts) s split each ready deep room = elim each [ ]
    collect_tree (suc rounds) pre (c ∷ xs) C end s split each ready deep room = elim each [ ]

  module _ (fits : String → Bool) (request_fits : (k : String) → Fit fits (find k request))
      (home_mapped : (q : Oid) → H q → (lib.pool_by_ptr (inside q) os == 0) ≡ false) where
    no_items_lem :
        (go : Oid → M (List Oid)) (test : String → Bool) (p : Oid) (n : TreeNode) (s : State)
        → Node p n s
        → null n.items ≡ true
        → Ends
            (Answer [] s)
            (λ e u. ⊥)
            ((do
              slots ← PersistentVector.allocated_size lib data_type (items p)
              collect lib go test (suc slots) p 0)
              s)
    unfolding collect PersistentVector.size PersistentVector.allocated_size
    no_items_lem go test p n s nd is_null =
        let has : member (items p) nd.object.content ≡ some n.items = rw nd.is refl in
        let at_once = read_lem (items p) n.items s nd.object nd.at has in
        rw at_once (rw is_null (rw at_once (rw is_null (returns (tt, Quiet-refl s)))))

    -- For a tree of nodes in open pools whose objects are apart, with a node that is no leaf at
    -- the top, a bound that its depth does not exceed, and a request whose values fit: `lookup`
    -- on the top node ends without an exception. What it returns are the addresses of the leaves
    -- that match the request, in the order of the tree, and no object has changed but for counts
    -- of vectors that are mended.
    pub lookup-matches :
        (fuel : ℕ) (p : Oid) (A : Region) (t : Tree) (s : State)
        → Rep H b s A p t
        → s.opened ≡ os
        → is_leaf t ≡ false
        → depth t ≤ fuel
        → Ends (Answer (matches request t) s) (λ e u. ⊥) (lookup lib fuel fits p request s)
    unfolding lookup depth matches gather
    lookup-matches fuel p A (leaf v blob) s rep opened is_inner deep = absurd (cc is_inner)
    lookup-matches zero p A (inner v k ts) s rep opened is_inner deep = absurd (omega (arith, deep))
    lookup-matches (suc fuel) p A (inner v k end) s
          (inner_rep n B here within out nd val key is_null home (no_items items_null)) opened
          is_inner deep =
        rw (this_node_lem p nd.object n s nd.at nd.is) (
          rw is_null (
            rw (wanted_lem lib fits (find n.key request) s (request_fits n.key))
              (no_items_lem _ _ p n s nd items_null)))
    lookup-matches (suc fuel) p A (inner v k ts) s
          (inner_rep n B here within out nd val key is_null home
            (some_items m xs C small in_b c_in_b out_c stored each))
          opened is_inner deep =
        let apart = oid_eq_comm n.items p (ne_of_member B n.items p in_b out) in
        let mapped = home_mapped p home in
        let ready : Ready os p n m xs s = record { here = nd; stored = stored; opened = opened } in
        let goes : Goes fuel (λ c. lookup lib fuel fits c request) =
          λ c D t' u rep opened' is_inner' deep'.
            lookup-matches fuel c D t' u rep opened' is_inner' deep' in
        rw (this_node_lem p nd.object n s nd.at nd.is) (
          rw is_null (
            rw (wanted_lem lib fits (find n.key request) s (request_fits n.key)) (
              Ends.bind _ (allocated-Quiet lib apart mapped ready) λ slots t (is, h). rw is (
                Ends.mono
                  (collect_tree p n apart mapped m xs fuel _ goes (chosen (find n.key request))
                    (suc m) [] xs C ts t refl (Each-AlikeOn each (omega arith) (Quiet-AlikeOn C h))
                    (Ready-Quiet ready h) (omega (arith, deep)) (omega (arith, fits_now stored)))
                  (λ r u (found, h'). let found' = rw key at found in (found', Quiet-trans h h'))
                  (λ e u h. h)))))
