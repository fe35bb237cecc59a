-- ===== src/Tree/Node/Print/Laws.antt =====
-- The text that `printTree` writes for a whole tree of nodes.
use pmem.Prelude.{
  ℕ, zero, suc, ◌≡◌, ◌<◌, ◌≤◌, refl, ap, sym, ◌∙◌, Bool, true, false, some, List, [], ◌∷◌, ◌++◌,
  String, arith, length, get_elem?, get_elem?-append, length-append, append_assoc, ltb, ◌==◌,
  if◌then◌else◌,
}
use pmem.Prelude.Result.{ok}
use pmem.Oid.{Oid, null, oid_eq}
use pmem.Memory.Objects.{TreeNode, State}
use pmem.Memory.Access.{M, pure, ◌>>=◌}
use pmem.Memory.Ends
use pmem.Memory.Ends.{Ends, returns, throws}
use pmem.Memory.Pmemobj.{Pmemobj, inside}
use pmem.Ptr.Location.{items, member}
use pmem.Ptr.Location.Laws.{read_lem}
use pmem.PersistentVector
use pmem.PersistentVector.Push.{fits_now}
use pmem.PersistentVector.Standing.{oid_eq_comm, get_lem}
use pmem.Tree.Node.{data_type, data_size, buffer_type}
use pmem.Tree.Node.Add.Laws.{Node, node_at_lem, length-snoc}
use pmem.Tree.Node.Add.Exists.{this_node_lem}
use pmem.Tree.Node.Print.{indent, print_items, print_tree}
use pmem.Tree.Node.Print.Shown.{shown, shown_all, is_end, length-Each}
use pmem.Tree.Shape.{Tree, leaf, inner, Trees, end, more, depth, depth_all}
use pmem.Tree.Rep.{
  Region, Blob, Rep, leaf_rep, inner_rep, no_items, some_items, Each, none_each, more_each,
}
use pmem.Tree.Rep.Alike.{Rep-AlikeOn, Each-AlikeOn}
use pmem.Tree.Rep.Head.{Rep-Head}
use pmem.Tree.Rep.Push.{ne_of_member}
use pmem.Tree.Rep.Quiet.{
  Quiet, Quiet-refl, Quiet-trans, Quiet-AlikeOn, Ready, Ready-Quiet, size-Quiet, allocated-Quiet,
  element-Quiet,
}

-- The number of bytes of a leaf's data.
data_size_lem :
    (lib : Pmemobj) (p : Oid) (n : TreeNode) (blob : List ℕ) (s : State)
    → Node p n s
    → null n.payload ≡ false
    → Blob n.payload blob s
    → data_size lib p s ≡ (ok (length blob), s)
unfolding data_size
data_size_lem lib p n blob s nd live b =
    rw (this_node_lem p nd.object n s nd.at nd.is)
      (rw live (rw (get_lem lib buffer_type n.payload b.object s b.at b.typed) (rw b.is refl)))

joined :
    (pad : String) (first : Bool) {v w : String} {here there later rest : List String}
    → v ≡ w
    → here ≡ there
    → later ≡ rest
    → (if first then [] else "," ∷ []) ++ "\n" ∷ pad ∷ v ∷ ": " ∷ here ++ later
      ≡ (if first then [] else "," ∷ []) ++ "\n" ∷ pad ∷ w ∷ ": " ∷ there ++ rest
joined pad first e f g = cc (e, f, g)

module _ (lib : Pmemobj) (bytes : ℕ → String) (os : List ℕ) (H : Oid → Type 0) (b : ℕ) where
  -- The text is this one, and nothing has changed but counts.
  abbrev pub Shows : List String → State → List String → State → Type 0
  Shows text s r u = (r ≡ text) × Quiet s u

  abbrev Goes : ℕ → String → (Oid → M (List String)) → Type 0
  Goes fuel pad go =
      (c : Oid) (A : Region) (t : Tree) (u : State)
      → Rep H b u A c t
      → u.opened ≡ os
      → depth t < fuel
      → Ends (Shows (shown bytes pad t) u) (λ e w. ⊥) (go c u)

  module _ (p : Oid) (n : TreeNode) (apart : oid_eq p n.items ≡ false)
      (mapped : (lib.pool_by_ptr (inside p) os == 0) ≡ false) (m : ℕ) (all : List Oid) (fuel : ℕ)
      (pad : String) (go : Oid → M (List String)) (goes : Goes fuel pad go) where
    print_all :
        (rounds : ℕ) (pre xs : List Oid) (C : Region) (ts : Trees) (s : State)
        → pre ++ xs ≡ all
        → Each H b s C xs ts
        → Ready os p n m all s
        → depth_all ts < fuel
        → length xs < rounds
        → Ends
            (Shows (shown_all bytes pad (length pre == 0) ts) s)
            (λ e u. ⊥)
            (print_items lib bytes go pad rounds p (length pre) s)
    unfolding print_items shown_all depth_all
    print_all zero pre xs C ts s split each ready deep room = absurd (omega (arith, room))
    print_all (suc rounds) pre [] C end s split none_each ready deep room =
        Ends.bind _ (size-Quiet lib apart mapped ready) λ sz t (is, h).
          let over : ltb (length pre) sz ≡ false =
            ground (arith, is, ap length split, length-append pre []) in
          rw over (returns (refl, h))
    print_all (suc rounds) pre (c ∷ xs) C (more one ts) s split
          (more_each D E in_d in_e apart' first rest) ready deep room =
        Ends.bind _ (size-Quiet lib apart mapped ready) λ sz t (is, h).
          let further : ltb (length pre) sz ≡ true =
            ground (arith, is, ap length split, length-append pre (c ∷ xs)) in
          rw further (
            Ends.bind _
              (element-Quiet lib apart mapped (Ready-Quiet ready h) (length pre) c
                (ap (λ l. get_elem? l (length pre)) (sym split) ∙ get_elem?-append pre xs c))
              λ d u (it, h'). rw it (
                let quiet = Quiet-trans h h' in
                let first' : Rep H b u D c one =
                  Rep-AlikeOn first (omega arith) (Quiet-AlikeOn D quiet) in
                let (n', nd, val, lf) = Rep-Head H b first' in
                rw (node_at_lem lib c n' u nd) (
                  Ends.bind _
                    (goes c D one u first' (quiet.opened ∙ ready.opened) (omega (arith, deep)))
                    λ here w (is_here, h2).
                      let quiet' = Quiet-trans quiet h2 in
                      let not_first : (suc (length pre) == 0) ≡ false = ground arith in
                      let next =
                        print_all rounds (pre ++ c ∷ []) xs E ts w
                          (append_assoc pre (c ∷ []) xs ∙ split)
                          (Each-AlikeOn rest (omega arith) (Quiet-AlikeOn E quiet'))
                          (Ready-Quiet ready quiet') (omega (arith, deep)) (omega arith) in
                      Ends.bind _ (rw (length-snoc pre c) at next) λ later x (is_later, h3).
                        returns (
                          joined pad (length pre == 0) val is_here
                              (is_later ∙ ap (λ f. shown_all bytes pad f ts) not_first),
                          Quiet-trans quiet' h3,
                        ))))
    print_all (suc rounds) pre [] C (more one ts) s split each ready deep room = elim each [ ]
    print_all (suc rounds) pre (c ∷ xs) C end s split each ready deep room = elim each [ ]

  closing_lem :
      (xs : List Oid) (C : Region) (ts : Trees) (s : State) (sz : ℕ)
      → Each H b s C xs ts
      → sz ≡ length xs
      → (sz == 0) ≡ is_end ts
  closing_lem xs C ts s sz each is = rw is (length-Each each)

  -- The block of a node with sub-nodes, without the braces.
  abbrev block : String → String → Bool → List String → List String
  block pad k empty text =
      pad ∷ "key: " ∷ k ∷ "," ∷ "\n" ∷ pad ∷ "items: [" ∷ text
      ++ (if empty then [] else "\n" ∷ pad ∷ [])
      ++ "]" ∷ "\n" ∷ []

  abbrev print_block : (Oid → M (List String)) → String → String → Oid → M (List String)
  print_block go pad k p = do
    slots ← PersistentVector.allocated_size lib data_type (items p)
    text ← print_items lib bytes go (indent pad) (suc slots) p 0
    sz ← PersistentVector.size lib data_type (items p)
    pure (block pad k (sz == 0) text)

  block_lem :
      (fuel : ℕ) (pad k : String) (p : Oid) (n : TreeNode) (apart : oid_eq p n.items ≡ false)
      (mapped : (lib.pool_by_ptr (inside p) os == 0) ≡ false) (m : ℕ) (xs : List Oid) (C : Region)
      (ts : Trees) (s : State) (go : Oid → M (List String))
      → Goes fuel (indent pad) go
      → Ready os p n m xs s
      → Each H b s C xs ts
      → depth_all ts < fuel
      → length xs ≤ m
      → Ends
          (Shows (block pad k (is_end ts) (shown_all bytes (indent pad) true ts)) s)
          (λ e u. ⊥)
          (print_block go pad k p s)
  block_lem fuel pad k p n apart mapped m xs C ts s go goes ready each deep fits =
      Ends.bind _ (allocated-Quiet lib apart mapped ready) λ slots t (is, h).
        let text_now =
          print_all p n apart mapped m xs fuel (indent pad) go goes (suc slots) [] xs C ts t refl
            (Each-AlikeOn each (omega arith) (Quiet-AlikeOn C h)) (Ready-Quiet ready h) deep
            (omega (arith, fits, is)) in
        Ends.bind _ text_now λ text u (is_text, h').
          let quiet = Quiet-trans h h' in
          Ends.bind _ (size-Quiet lib apart mapped (Ready-Quiet ready quiet)) λ sz w (is_size, h2).
            let closed = closing_lem xs C ts s sz each is_size in
            returns (cc (is_text, closed), Quiet-trans quiet h2)

  no_items_lem :
      (go : Oid → M (List String)) (pad k : String) (p : Oid) (n : TreeNode) (s : State)
      → Node p n s
      → null n.items ≡ true
      → Ends (Shows (block pad k true []) s) (λ e u. ⊥) (print_block go pad k p s)
  unfolding print_items PersistentVector.size PersistentVector.allocated_size
  no_items_lem go pad k p n s nd is_null =
      let has : member (items p) nd.object.content ≡ some n.items = rw nd.is refl in
      let at_once = read_lem (items p) n.items s nd.object nd.at has in
      rw at_once (
        rw is_null
          (rw at_once (rw is_null (rw at_once (rw is_null (returns (refl, Quiet-refl s)))))))

  module _ (home_mapped : (q : Oid) → H q → (lib.pool_by_ptr (inside q) os == 0) ≡ false) where
    -- For a tree of nodes in open pools whose objects are apart, and a bound above its depth:
    -- `printTree` on the top node ends without an exception. The text is that of the tree: each
    -- node is a block in braces, with the number of bytes of a leaf's data, or with the key and
    -- the sub-nodes' values and blocks in their order, with commas between and each level
    -- indented further; and no object has changed but for counts of vectors that are mended.
    pub print_tree-shown :
        (fuel : ℕ) (pad : String) (p : Oid) (A : Region) (t : Tree) (s : State)
        → Rep H b s A p t
        → s.opened ≡ os
        → depth t < fuel
        → Ends (Shows (shown bytes pad t) s) (λ e u. ⊥) (print_tree lib bytes fuel p pad s)
    unfolding print_tree depth shown shown_all
    print_tree-shown zero pad p A t s rep opened deep = absurd (omega (arith, deep))
    print_tree-shown (suc fuel) pad p A (leaf v blob) s (leaf_rep n here there nd val live blob_at)
          opened deep =
        rw (this_node_lem p nd.object n s nd.at nd.is) (
          rw live
            (rw (data_size_lem lib p n blob s nd live blob_at) (returns (refl, Quiet-refl s))))
    print_tree-shown (suc fuel) pad p A (inner v k end) s
          (inner_rep n B here within out nd val key is_null home (no_items items_null)) opened
          deep =
        rw (this_node_lem p nd.object n s nd.at nd.is) (
          rw (is_null, key)
            (Ends.bind _ (no_items_lem _ (indent pad) k p n s nd items_null)
              λ body u (is, h). returns (rw is refl, h)))
    print_tree-shown (suc fuel) pad p A (inner v k ts) s
          (inner_rep n B here within out nd val key is_null home
            (some_items m xs C small in_b c_in_b out_c stored each))
          opened deep =
        let apart = oid_eq_comm n.items p (ne_of_member B n.items p in_b out) in
        let mapped = home_mapped p home in
        let ready : Ready os p n m xs s = record { here = nd; stored = stored; opened = opened } in
        let pad4 = indent (indent pad) in
        let goes : Goes fuel pad4 (λ c. print_tree lib bytes fuel c pad4) =
          λ c D t' u rep opened' deep'. print_tree-shown fuel pad4 c D t' u rep opened' deep' in
        rw (this_node_lem p nd.object n s nd.at nd.is) (
          rw (is_null, key)
            (Ends.bind _
              (block_lem fuel (indent pad) k p n apart mapped m xs C ts s _ goes ready each
                (omega (arith, deep)) (fits_now stored))
              λ body u (is, h). returns (rw is refl, h)))
