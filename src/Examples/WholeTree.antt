-- ===== src/Examples/WholeTree.antt =====
-- Insertions and lookups in a tree of two nodes.
use pmem.Prelude.{
  ℕ, ◌==◌, if◌then◌else◌, ◌≡◌, refl, ap, ◌∙◌, ◌⊎◌, true, false, Option, none, some, List, [], ◌∷◌,
  String, arith,
}
use pmem.Prelude.Result.{allocation_error, ok, err}
use pmem.Oid.{Oid, null, oid_eq_iff}
use pmem.Memory.Objects.{buffer, root, TreeRoot, Object, PersistentPool, State}
use pmem.Memory.Access.{update, ◌>>◌}
use pmem.Memory.Ends.{Ends}
use pmem.Vector.Pointer.Construct.{data_of, data_of-Settled}
use pmem.PersistentVector.Standing.{Stored}
use pmem.Pool.Registry.{find as find_pool}
use pmem.Tree.Schema.{StringDict, KeyType, find}
use pmem.Tree.Node.Create.{Home}
use pmem.Tree.Node.Add.{add_node}
use pmem.Tree.Node.Add.Laws.{Node}
use pmem.Tree.Node.Lookup.{lookup}
use pmem.Tree.Node.Lookup.Laws.{Fit}
use pmem.Tree.Node.Lookup.Found.{Found}
use pmem.Tree.Node.Print.{print_tree}
use pmem.Tree.Node.Print.Shown.{shown}
use pmem.Tree.Node.Print.Laws.{Shows, print_tree-shown}
use pmem.Tree.Node.Lookup.Matches.{lookup-matches}
use pmem.Tree.Shape.{Tree, leaf, inner, end, more, depth, insert, matches}
use pmem.Tree.Shape.Added.{Added}
use pmem.Tree.Shape.Laws.{found_of}
use pmem.Tree.Node.Add.Grown.{Grown}
use pmem.Tree.Node.Add.Insert.{add_node-insert}
use pmem.Tree.Node.Lookup.Added.{lookup-add_node}
use pmem.Tree.Rep.{Region, Rep, leaf_rep, inner_rep, some_items, none_each, more_each, Blob}
use pmem.Tree.Rep.Quiet.{Quiet}
use pmem.Tree.Rep.Grows.{nowhere, nowhere-Within, Owned}
use pmem.Tree.Rep.Push.{single, union}
use pmem.Tree.Rep.Attach.{union-Owned}
use pmem.Examples.Library.{lib}
use pmem.Examples.Search.{
  parent_at, vector_at, child_at, node_object, child_node, parent_node, vector_object, heap_2,
  every,
}

abbrev pub blob_at : Oid
blob_at = record { pool_uuid_lo = 7; off = 4000 }

abbrev blob_object : Object
blob_object = record {
  type_num = 3;
  size = 8;
  content = buffer (record { length = 1; bytes = 9 ∷ [] });
}

abbrev pub pool : PersistentPool
pool = record { path = "pool"; handle = 3; new_pool = true; size = 4096 }

abbrev heap_3 : Oid → Option Object
heap_3 x = update (heap_2 blob_at) blob_at (some blob_object) x

-- A root whose node is the top of the tree.
abbrev pub root_at : Oid
root_at = record { pool_uuid_lo = 7; off = 500 }

abbrev pub tree_root : TreeRoot
tree_root = record { tag = "999TREE9"; node = parent_at; schema = blob_at }

abbrev pub root_object : Object
root_object = record { type_num = 0; size = 40; content = root tree_root }

abbrev heap_4 : Oid → Option Object
heap_4 x = update heap_3 root_at (some root_object) x

abbrev pub start : State
start = record { heap = heap_4; flushes = []; opened = 3 ∷ []; registry = (3, pool) ∷ [] }

abbrev spam : Tree
spam = leaf "spam" (9 ∷ [])

abbrev pub whole : Tree
whole = inner "root" "name" (more spam end)

abbrev below_vector : Region
below_vector x = union (single child_at) (single blob_at) x

abbrev below_top : Region
below_top x = union (single vector_at) below_vector x

abbrev pub all : Region
all x = union (single parent_at) below_top x

abbrev pub InPool : Oid → Type 0
InPool = Home lib pool (3 ∷ [])

parent-Node : Node parent_at parent_node start
unfolding update
parent-Node = record { object = node_object parent_node; at = refl; typed = refl; is = refl }

child-Node : Node child_at (child_node blob_at) start
unfolding update
child-Node = record {
  object = node_object (child_node blob_at);
  at = refl;
  typed = refl;
  is = refl;
}

vector-Stored : Stored 2 2 vector_at (child_at ∷ []) start
unfolding update
vector-Stored = record {
  object = vector_object;
  vec = data_of (child_at ∷ []) 2;
  at = refl;
  typed = refl;
  is = refl;
  holds = (data_of-Settled (child_at ∷ []) 2 (refl, tt) (omega arith) (omega arith)).holds;
  capacity = refl;
  some_room = omega arith;
  alive = refl;
}

data-Blob : Blob blob_at (9 ∷ []) start
unfolding update
data-Blob = record { object = blob_object; at = refl; typed = refl; is = refl }

pub whole-Rep : Rep InPool 2 start all parent_at whole
whole-Rep =
    inner_rep parent_node below_top refl (λ q found. ground arith) refl parent-Node refl refl refl
      refl
      (some_items 2 (child_at ∷ []) below_vector (omega arith) refl (λ q found. ground arith) refl
        vector-Stored
        (more_each below_vector nowhere (λ q found. found) (nowhere-Within below_vector)
          (λ q found. refl) (leaf_rep (child_node blob_at) refl refl child-Node refl refl data-Blob)
          none_each))

single-Owned :
    (p : Oid) (o : Object) → start.heap p ≡ some o → null p ≡ false → Owned (single p) start
single-Owned p o at alive q found =
    let same = (oid_eq_iff q p).0 found in (o, ap start.heap same ∙ at, ap null same ∙ alive)

pub all-Owned : Owned all start
unfolding update
all-Owned =
    union-Owned (single parent_at) below_top start
      (single-Owned parent_at (node_object parent_node) refl refl)
      (union-Owned (single vector_at) below_vector start
        (single-Owned vector_at vector_object refl refl)
        (union-Owned (single child_at) (single blob_at) start
          (single-Owned child_at (node_object (child_node blob_at)) refl refl)
          (single-Owned blob_at blob_object refl refl)))

abbrev request : StringDict
request = ("name", "eggs") ∷ []

pub any_fits : (o : Option String) → Fit every o
any_fits none = tt
any_fits (some v) = refl

-- A lookup of the leaf's value, and the keys of a second leaf.
abbrev spam_request : StringDict
spam_request = ("name", "spam") ∷ []

abbrev pub eggs : KeyType
eggs = ("name", "eggs") ∷ []

abbrev spam_eggs : Tree
spam_eggs = inner "root" "name" (more spam (more (leaf "eggs" (8 ∷ [])) end))

pub whole_deep : depth whole ≡ 1
unfolding depth
whole_deep = refl

lookup-whole_example :
    Ends
      (λ r u. Found InPool 2 u r (matches spam_request whole) × Quiet start u)
      (λ e u. ⊥)
      (lookup lib 1 every parent_at spam_request start)
lookup-whole_example =
    lookup-matches lib (3 ∷ []) InPool 2 spam_request every (λ k. any_fits (find k spam_request))
      (λ q home. refl) 1 parent_at all whole start whole-Rep refl refl (omega (arith, whole_deep))

abbrev bytes_text : ℕ → String
bytes_text n = if n == 1 then "1 byte" else "some bytes"

print_tree_example :
    Ends
      (Shows lib bytes_text (3 ∷ []) InPool 2 (shown bytes_text "" whole) start)
      (λ e u. ⊥)
      (print_tree lib bytes_text 2 parent_at "" start)
print_tree_example =
    print_tree-shown lib bytes_text (3 ∷ []) InPool 2 (λ q home. refl) 2 "" parent_at all whole
      start whole-Rep refl (omega (arith, whole_deep))

insert-whole_example :
    Ends
      (λ _ u.
        (t : Tree) × (insert every eggs (8 ∷ []) whole ≡ ok t)
        × Grown InPool 4 start all parent_at t u)
      (λ e u.
        ((e ≡ allocation_error) ⊎ (insert every eggs (8 ∷ []) whole ≡ err e))
        × Grown InPool 4 start all parent_at whole u)
      (add_node lib every parent_at eggs (8 ∷ []) start)
unfolding find_pool
insert-whole_example =
    add_node-insert lib every refl pool refl (3 ∷ []) ((3, pool) ∷ []) refl 2 (omega arith)
      (omega arith) (8 ∷ []) (λ x. omega arith) eggs parent_at all whole start whole-Rep all-Owned
      refl refl refl

lookup-eggs_example :
    Ends
      (λ r u.
        (found : List Tree) × Found InPool 4 u r found
        × Added (matches eggs whole) found (found_of eggs eggs (8 ∷ [])))
      (λ e u.
        ((e ≡ allocation_error) ⊎ (insert every eggs (8 ∷ []) whole ≡ err e))
        × Grown InPool 4 start all parent_at whole u)
      ((do add_node lib every parent_at eggs (8 ∷ []); lookup lib 1 every parent_at eggs) start)
unfolding find_pool
lookup-eggs_example =
    lookup-add_node lib every refl pool refl (3 ∷ []) ((3, pool) ∷ []) refl 2 (omega arith)
      (omega arith) (8 ∷ []) (λ x. omega arith) eggs (λ k. any_fits (find k eggs)) 1 eggs parent_at
      all whole start whole-Rep all-Owned refl refl refl (omega (arith, whole_deep)) (omega arith)
