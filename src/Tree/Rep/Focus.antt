-- ===== src/Tree/Rep/Focus.antt =====
-- The sub-node with a value, among the sub-nodes of a node: where it is, and the sub-nodes with
-- another tree in its place.
use pmem.Prelude.{
  ℕ, ◌≤◌, ◌≡◌, refl, ap, ◌∙◌, ◌⊎◌, inl, inr, Bool, true, false, none, some, List, [], ◌∷◌, String,
  Bool-cases, if◌then◌else◌,
}
use pmem.Prelude.Result.{Result, ok, err, leaf_exists}
use pmem.Oid.{Oid, oid_eq}
use pmem.Memory.Objects.{TreeNode, State}
use pmem.Tree.Schema.{same}
use pmem.Tree.Node.{leaf as holds_data}
use pmem.Tree.Node.Add.Laws.{Node, Nodes, first_match}
use pmem.Tree.Shape.{
  Tree, Trees, end, more, value_of, is_leaf, insert_in, alone, with_first, with_rest,
}
use pmem.Tree.Rep.{Region, Within, Apart, Rep, Each, none_each, more_each}
use pmem.Tree.Rep.Alike.{Rep-AlikeOn, Each-AlikeOn}
use pmem.Tree.Rep.Grows.{
  swap, Owned, Grows, swap-Within, grown-Within, kept-Within, Apart-grown, kept-AlikeOn, Apart-comm,
  out_swap,
}
use pmem.Tree.Rep.Head.{Rep-Head, Rep-here}
use pmem.Tree.Rep.Push.{snoc, ne_of_member, out_of_part}

abbrev pub with_put : (Tree → Trees) → Result Tree → Result Trees
with_put put (ok t) = ok (put t)
with_put put (err e) = err e

-- There is none.
abbrev pub Missing : String → List Oid → Trees → List TreeNode → Type 0
Missing v xs ts ns =
    (first_match v xs ns ≡ none)
    × ((go : Tree → Result Tree) (new : Result Tree)
        → insert_in go v new ts ≡ with_put (snoc ts) new)

-- The first one.
pub record Hit (H : Oid → Type 0) (b : ℕ) (s : State) (v : String) (C : Region) (xs : List Oid)
    (ts : Trees) (ns : List TreeNode) : Type 0 where
  pub address : Oid
  pub child : TreeNode
  pub tree : Tree
  pub region : Region
  pub put : Tree → Trees
  pub first : first_match v xs ns ≡ some address
  pub at : Node address child s
  pub leaf_e : holds_data child ≡ is_leaf tree
  pub rep : Rep H b s region address tree
  pub within : Within region C
  pub put_tree : put tree ≡ ts
  pub inserted :
      (go : Tree → Result Tree) (new : Result Tree)
      → insert_in go v new ts ≡ (if is_leaf tree then err leaf_exists else with_put put (go tree))
  pub rebuild :
      (b' : ℕ) (u : State) (D : Region) (t : Tree)
      → b ≤ b'
      → Grows s region u D
      → Rep H b' u D address t
      → Each H b' u (swap C region D) xs (put t)

abbrev pub Focus : (Oid → Type 0) → ℕ → State → Oid → String → Region → List Oid → Trees → Type 0
Focus H b s p v C xs ts =
    (ns : List TreeNode) × Nodes p xs ns s × (Missing v xs ts ns ⊎ Hit H b s v C xs ts ns)

alone_lem : (r : Result Tree) → alone r ≡ with_put (snoc end) r
unfolding snoc
alone_lem (ok t) = refl
alone_lem (err e) = refl

first_lem :
    (t : Tree) (ts : Trees) (r : Result Tree)
    → with_first t (with_put (snoc ts) r) ≡ with_put (snoc (more t ts)) r
unfolding snoc
first_lem t ts (ok t') = refl
first_lem t ts (err e) = refl

rest_lem : (ts : Trees) (r : Result Tree) → with_rest ts r ≡ with_put (λ t. more t ts) r
rest_lem ts (ok t) = refl
rest_lem ts (err e) = refl

put_lem :
    (t : Tree) (put : Tree → Trees) (b : Bool) (r : Result Tree)
    → with_first t (if b then err leaf_exists else with_put put r)
      ≡ (if b then err leaf_exists else with_put (λ t'. more t (put t')) r)
put_lem t put true r = refl
put_lem t put false (ok t') = refl
put_lem t put false (err e) = refl

module _ (H : Oid → Type 0) (b : ℕ) (s : State) (p : Oid) (v : String) where
  -- The first of several.
  first-Hit :
      (C D E : Region) (c : Oid) (xs : List Oid) (t : Tree) (ts : Trees) (n : TreeNode)
      (ns : List TreeNode)
      → Owned C s
      → Within D C
      → Within E C
      → Apart D E
      → Rep H b s D c t
      → Each H b s E xs ts
      → Node c n s
      → holds_data n ≡ is_leaf t
      → same n.value v ≡ true
      → same (value_of t) v ≡ true
      → Hit H b s v C (c ∷ xs) (more t ts) (n ∷ ns)
  unfolding insert_in
  first-Hit C D E c xs t ts n ns own in_d in_e apart rep rest nd lf same_n same_t = record {
    address = c;
    child = n;
    tree = t;
    region = D;
    put = λ t'. more t' ts;
    first = rw same_n refl;
    at = nd;
    leaf_e = lf;
    rep = rep;
    within = in_d;
    put_tree = refl;
    inserted = λ go new.
        rw same_t (ap (λ r. if is_leaf t then err leaf_exists else r) (rest_lem ts (go t)));
    rebuild = λ b' u D' t' le grows rep'.
        let away = Apart-comm D E apart in
        let own_e : Owned E s = λ q found. own q (in_e q found) in
        more_each D' E (grown-Within D D' grows C) (kept-Within D D' grows C E in_e away)
          (Apart-comm E D' (Apart-grown D D' grows E own_e away)) rep'
          (Each-AlikeOn rest le (kept-AlikeOn D D' grows E own_e away));
  }

  -- One of the others.
  later-Hit :
      (C D E : Region) (c : Oid) (xs : List Oid) (t : Tree) (ts : Trees) (n : TreeNode)
      (ns : List TreeNode)
      → Owned C s
      → Within D C
      → Within E C
      → Apart D E
      → Rep H b s D c t
      → same n.value v ≡ false
      → same (value_of t) v ≡ false
      → Hit H b s v E xs ts ns
      → Hit H b s v C (c ∷ xs) (more t ts) (n ∷ ns)
  unfolding insert_in
  later-Hit C D E c xs t ts n ns own in_d in_e apart rep other_n other_t h = record {
    address = h.address;
    child = h.child;
    tree = h.tree;
    region = h.region;
    put = λ t'. more t (h.put t');
    first = rw other_n h.first;
    at = h.at;
    leaf_e = h.leaf_e;
    rep = h.rep;
    put_tree = ap (more t) h.put_tree;
    within = λ q found. in_e q (h.within q found);
    inserted = λ go new.
        rw other_t
          (ap (with_first t) (h.inserted go new) ∙ put_lem t h.put (is_leaf h.tree) (go h.tree));
    rebuild = λ b' u D' t' le grows rep'.
        let own_d : Owned D s = λ q found. own q (in_d q found) in
        let own_e : Owned E s = λ q found. own q (in_e q found) in
        let in_h : Within h.region C = λ q found. in_e q (h.within q found) in
        let away : Apart D h.region =
          Apart-comm h.region D (λ q found. Apart-comm D E apart q (h.within q found)) in
        more_each D (swap E h.region D') (kept-Within h.region D' grows C D in_d away)
          (swap-Within h.region D' grows C E in_e)
          (λ q found.
            let (o, at, alive) = own_d q found in
            out_swap h.region D' grows E own_e h.within q o at (apart q found))
          (Rep-AlikeOn rep le (kept-AlikeOn h.region D' grows D own_d away))
          (h.rebuild b' u D' t' le grows rep');
  }

  pub focus :
      (C : Region) (xs : List Oid) (ts : Trees)
      → Owned C s
      → C p ≡ false
      → Each H b s C xs ts
      → Focus H b s p v C xs ts
  unfolding insert_in
  focus C [] end own out none_each = ([], tt, inl (refl, λ go new. alone_lem new))
  focus C (c ∷ xs) (more t ts) own out (more_each D E in_d in_e apart rep rest) =
      let (n, nd, val, lf) = Rep-Head H b rep in
      let own_e : Owned E s = λ q found. own q (in_e q found) in
      let out_e : E p ≡ false = out_of_part C E p in_e out in
      let ne : oid_eq c p ≡ false = ne_of_member C c p (in_d c (Rep-here H b rep)) out in
      let (ns, nodes, found) = focus E xs ts own_e out_e rest in
      elim (Bool-cases (same (value_of t) v)) [
        | inl hit ↦
            let same_n : same n.value v ≡ true = ap (λ x. same x v) val ∙ hit in
            (
              n ∷ ns,
              (nd, ne, nodes),
              inr (first-Hit C D E c xs t ts n ns own in_d in_e apart rep rest nd lf same_n hit),
            )
        | inr miss ↦
            let other_n : same n.value v ≡ false = ap (λ x. same x v) val ∙ miss in
            elim found [
              | inl (none_e, inserted) ↦ (
                n ∷ ns,
                (nd, ne, nodes),
                inl (
                  rw other_n none_e,
                  λ go new. rw miss (ap (with_first t) (inserted go new) ∙ first_lem t ts new),
                ),
              )
              | inr h ↦ (
                n ∷ ns,
                (nd, ne, nodes),
                inr (later-Hit C D E c xs t ts n ns own in_d in_e apart rep other_n miss h),
              )
            ]
      ]
  focus C [] (more t ts) own out each = elim each [ ]
  focus C (c ∷ xs) end own out each = elim each [ ]
