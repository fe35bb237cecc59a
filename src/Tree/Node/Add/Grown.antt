-- ===== src/Tree/Node/Add/Grown.antt =====
-- The trees that an insertion leaves: the one that it started from, and one with a changed sub-node.
use pmem.Prelude.{ℕ, ◌≤◌, ◌≡◌, refl, true, false, List, String, arith}
use pmem.Oid.{Oid, null}
use pmem.Memory.Objects.{TreeNode, State}
use pmem.PersistentVector.Standing.{Stored}
use pmem.Tree.Node.{data_type}
use pmem.Tree.Node.Add.Laws.{Node}
use pmem.Tree.Shape.{Tree, inner, Trees}
use pmem.Tree.Rep.{Region, Within, Rep, inner_rep, some_items}
use pmem.Tree.Rep.Alike.{Rep-AlikeOn, Node-Twin, Stored-Twin}
use pmem.Tree.Rep.Quiet.{Quiet, Quiet-AlikeOn}
use pmem.Tree.Rep.Grows.{
  nowhere, swap, Owned, Grows, Quiet-Grows, swap-Within, Grows-swap, Grows-less, in_swap, out_swap,
  kept-AlikeOn,
}
use pmem.Tree.Rep.Push.{out_of_part}
use pmem.Tree.Rep.Focus.{Hit}

-- At `p` the tree `t` lies in a region that has grown from `A`.
abbrev pub Grown : (Oid → Type 0) → ℕ → State → Region → Oid → Tree → State → Type 0
Grown H b s A p t u = (A' : Region) × Rep H b u A' p t × Grows s A u A'

-- Calls that leave all the objects of the tree alike.
module _ {H : Oid → Type 0} {b b' : ℕ} {s : State} {A : Region} {p : Oid} {t : Tree}
    (rep : Rep H b s A p t) (owned : Owned A s) (le : b ≤ b') where
  pub Grown-Quiet : {u : State} → Quiet s u → Grown H b' s A p t u
  Grown-Quiet h = (A, Rep-AlikeOn rep le (Quiet-AlikeOn A h), Quiet-Grows owned h)

  pub Grown-beside : {u : State} → Grows s nowhere u nowhere → Grown H b' s A p t u
  Grown-beside {u} h =
      let all : Grows s A u (swap A nowhere nowhere) =
        Grows-swap nowhere nowhere h A owned (λ q found. absurd (cc found)) in
      (
        A,
        Rep-AlikeOn rep le (kept-AlikeOn nowhere nowhere h A owned (λ q found. refl)),
        Grows-less A (λ q found. rw found refl) all,
      )

-- The sub-node that was met has become another tree.
module _ {H : Oid → Type 0} {b b' : ℕ} {s u : State} {A B C : Region} {p : Oid} {n : TreeNode}
    (here : A p ≡ true) (within : Within B A) (out : B p ≡ false) (nd : Node p n s)
    (no_data : null n.payload ≡ true) (home : H p) (owned : Owned A s) {m : ℕ} {xs : List Oid}
    (small : m ≤ b) (in_b : B n.items ≡ true) (c_in_b : Within C B) (out_c : C n.items ≡ false)
    (k : Stored data_type m n.items xs s) {v : String} {ts : Trees} {ns : List TreeNode}
    (h : Hit H b s v C xs ts ns) (le : b ≤ b') {D : Region} {t : Tree}
    (grows : Grows s h.region u D) (rep : Rep H b' u D h.address t) where
  pub regrown : Grown H b' s A p (inner n.value n.key (h.put t)) u
  regrown =
      let own_b : Owned B s = λ q found. owned q (within q found) in
      let d_in_b : Within h.region B = λ q found. c_in_b q (h.within q found) in
      let d_in_a : Within h.region A = λ q found. within q (d_in_b q found) in
      let own_c : Owned C s = λ q found. own_b q (c_in_b q found) in
      let d_out_p : h.region p ≡ false = out_of_part B h.region p d_in_b out in
      let d_out_q : h.region n.items ≡ false = out_of_part C h.region n.items h.within out_c in
      (
        swap A h.region D,
        inner_rep n (swap B h.region D) (in_swap h.region D grows A owned d_in_a p here d_out_p)
            (swap-Within h.region D grows A B within)
            (out_swap h.region D grows B own_b d_in_b p nd.object nd.at out)
            (Node-Twin nd
              (grows.frame p nd.object (ground (arith, d_out_p, (owned p here).2)) nd.at))
            refl refl no_data home
            (some_items m xs (swap C h.region D) (omega (arith, small, le))
              (in_swap h.region D grows B own_b d_in_b n.items in_b d_out_q)
              (swap-Within h.region D grows B C c_in_b)
              (out_swap h.region D grows C own_c h.within n.items k.object k.at out_c)
              (Stored-Twin k (
                grows.frame n.items k.object (ground (arith, d_out_q, (own_b n.items in_b).2))
                  k.at))
              (h.rebuild b' u D t le grows rep)),
        Grows-swap h.region D grows A owned d_in_a,
      )
