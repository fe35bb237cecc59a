-- ===== src/Tree/Rep/Head.antt =====
-- The node at the top of a tree.
use pmem.Prelude.{ℕ, ◌≡◌, refl, true}
use pmem.Oid.{Oid}
use pmem.Memory.Objects.{TreeNode, State}
use pmem.Tree.Node.{leaf as holds_data}
use pmem.Tree.Node.Add.Laws.{Node}
use pmem.Tree.Shape.{Tree, value_of, is_leaf}
use pmem.Tree.Rep.{Region, Rep, leaf_rep, inner_rep}

abbrev pub Head : Oid → Tree → State → Type 0
Head c t s = (n : TreeNode) × Node c n s × (n.value ≡ value_of t) × (holds_data n ≡ is_leaf t)

module _ (H : Oid → Type 0) (b : ℕ) where
  pub Rep-Head : {s : State} {A : Region} {c : Oid} {t : Tree} → Rep H b s A c t → Head c t s
  Rep-Head (leaf_rep n here there nd val live blob) = (n, nd, val, rw live refl)
  Rep-Head (inner_rep n B here within out nd val key is_null home below) =
      (n, nd, val, rw is_null refl)

  pub Rep-here : {s : State} {A : Region} {c : Oid} {t : Tree} → Rep H b s A c t → A c ≡ true
  Rep-here (leaf_rep n here there nd val live blob) = here
  Rep-here (inner_rep n B here within out nd val key is_null home below) = here
