-- ===== src/Tree/Rep.antt =====
-- When objects in memory are the nodes of a tree. A region is a set of addresses; a node, its
-- vector and each of its sub-nodes lie in regions that have no address in common.
pub mod Alike
pub mod Quiet
pub mod Grows
pub mod Push
pub mod Rebuilt
pub mod Attach
pub mod Fresh
pub mod Head
pub mod Focus
use pmem.Prelude.{ℕ, ◌≤◌, some, ◌≡◌, Bool, true, false, List, [], ◌∷◌, String, length}
use pmem.Oid.{Oid, null}
use pmem.Memory.Objects.{buffer, TreeNode, Object, State}
use pmem.PersistentVector.Standing.{Stored}
use pmem.Tree.Shape.{Tree, leaf, inner, Trees, end, more}
use pmem.Tree.Node.{data_type, buffer_type}
use pmem.Tree.Node.Add.Laws.{Node}

abbrev pub Region : Type 0
Region = Oid → Bool

abbrev pub Within : Region → Region → Type 0
Within B A = (q : Oid) → B q ≡ true → A q ≡ true

abbrev pub Apart : Region → Region → Type 0
Apart B C = (q : Oid) → B q ≡ true → C q ≡ false

-- The object at `q` is a buffer of these bytes.
pub record Blob (q : Oid) (blob : List ℕ) (s : State) : Type 0 where
  pub object : Object
  pub at : s.heap q ≡ some object
  pub typed : object.type_num ≡ buffer_type
  pub is : object.content ≡ buffer (record { length = length blob; bytes = blob })

-- `Rep H b s A p t`: at `s`, the node at `p` is the tree `t`, and all of it lies in `A`. `H` holds of
-- each address at which a node with sub-nodes lies, and no vector has more than `b` slots.
mutual
  pub data Rep (H : Oid → Type 0) (b : ℕ) : State → Region → Oid → Tree → Type 0 where
    leaf_rep :
        {s : State} {A : Region} {p : Oid} {v : String} {blob : List ℕ} (n : TreeNode)
        → A p ≡ true
        → A n.payload ≡ true
        → Node p n s
        → n.value ≡ v
        → null n.payload ≡ false
        → Blob n.payload blob s
        → Rep H b s A p (leaf v blob)
    inner_rep :
        {s : State} {A : Region} {p : Oid} {v k : String} {ts : Trees} (n : TreeNode) (B : Region)
        → A p ≡ true
        → Within B A
        → B p ≡ false
        → Node p n s
        → n.value ≡ v
        → n.key ≡ k
        → null n.payload ≡ true
        → H p
        → Items H b s B n.items ts
        → Rep H b s A p (inner v k ts)

  pub data Items (H : Oid → Type 0) (b : ℕ) : State → Region → Oid → Trees → Type 0 where
    no_items : {s : State} {B : Region} {q : Oid} → null q ≡ true → Items H b s B q end
    some_items :
        {s : State} {B : Region} {q : Oid} {ts : Trees} (m : ℕ) (xs : List Oid) (C : Region)
        → m ≤ b
        → B q ≡ true
        → Within C B
        → C q ≡ false
        → Stored data_type m q xs s
        → Each H b s C xs ts
        → Items H b s B q ts

  pub data Each (H : Oid → Type 0) (b : ℕ) : State → Region → List Oid → Trees → Type 0 where
    none_each : {s : State} {C : Region} → Each H b s C [] end
    more_each :
        {s : State} {C : Region} {c : Oid} {xs : List Oid} {t : Tree} {ts : Trees} (D E : Region)
        → Within D C
        → Within E C
        → Apart D E
        → Rep H b s D c t
        → Each H b s E xs ts
        → Each H b s C (c ∷ xs) (more t ts)
