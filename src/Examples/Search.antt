-- ===== src/Examples/Search.antt =====
-- The search of a node with one sub-node.
use pmem.Prelude.{String, Bool, ◌≡◌, refl, ◌⊎◌, inr, true, Option, some, [], ◌∷◌, arith}
use pmem.Prelude.Result.{leaf_exists}
use pmem.Oid.{Oid, oid_null, null}
use pmem.Vector.Pointer.Construct.{data_of, data_of-Settled}
use pmem.Memory.Objects.{node, vector, TreeNode, Object, State}
use pmem.Memory.Access.{update}
use pmem.Memory.Ends.{Ends}
use pmem.PersistentVector.Standing.{Stored}
use pmem.Tree.Node.Add.{find_child, add_node}
use pmem.Tree.Node.Add.Exists.{After, add_node-leaf}
use pmem.Tree.Node.Add.Laws.{Node, Nodes, Searched, find_child-Ends}
use pmem.Examples.Library.{lib, empty_state}

abbrev pub parent_at : Oid
parent_at = record { pool_uuid_lo = 7; off = 1000 }

abbrev pub vector_at : Oid
vector_at = record { pool_uuid_lo = 7; off = 2000 }

abbrev pub child_at : Oid
child_at = record { pool_uuid_lo = 7; off = 3000 }

abbrev pub node_object : TreeNode → Object
node_object n = record { type_num = 1; size = 56; content = node n }

-- The sub-node is a leaf if its payload is not null.
abbrev pub child_node : Oid → TreeNode
child_node blob_at = record { items = oid_null; payload = blob_at; value = "spam"; key = "" }

abbrev pub parent_node : TreeNode
parent_node = record { items = vector_at; payload = oid_null; value = "root"; key = "name" }

abbrev pub vector_object : Object
vector_object = record { type_num = 2; size = 48; content = vector (data_of (child_at ∷ []) 2) }

abbrev pub heap_0 : Oid → Oid → Option Object
heap_0 blob_at x = update empty_state.heap child_at (some (node_object (child_node blob_at))) x

abbrev pub heap_1 : Oid → Oid → Option Object
heap_1 blob_at x = update (heap_0 blob_at) vector_at (some vector_object) x

abbrev pub heap_2 : Oid → Oid → Option Object
heap_2 blob_at x = update (heap_1 blob_at) parent_at (some (node_object parent_node)) x

abbrev pub tree_state : Oid → State
tree_state blob_at = record empty_state { heap = heap_2 blob_at; opened = 3 ∷ [] }

pub parent_found :
    (blob_at : Oid) → (tree_state blob_at).heap parent_at ≡ some (node_object parent_node)
unfolding update
parent_found blob_at = refl

pub vector-Stored : (blob_at : Oid) → Stored 2 2 vector_at (child_at ∷ []) (tree_state blob_at)
unfolding update
vector-Stored blob_at = record {
  object = vector_object;
  vec = data_of (child_at ∷ []) 2;
  at = refl;
  typed = refl;
  is = refl;
  holds = (data_of-Settled (child_at ∷ []) 2 (refl, tt) (omega arith) (omega arith)).holds;
  capacity = refl;
  some_room = omega arith;
  alive = refl;
}

pub child-Node : (blob_at : Oid) → Node child_at (child_node blob_at) (tree_state blob_at)
unfolding update
child-Node blob_at = record {
  object = node_object (child_node blob_at);
  at = refl;
  typed = refl;
  is = refl;
}

pub children :
    (blob_at : Oid) → Nodes parent_at (child_at ∷ []) (child_node blob_at ∷ []) (tree_state blob_at)
children blob_at = (child-Node blob_at, refl, tt)

abbrev pub leaf_state : State
leaf_state = tree_state vector_at

abbrev inner_state : State
inner_state = tree_state oid_null

find_child_example :
    Ends
      (λ r u.
        (r ≡ some child_at)
        × (((u ≡ leaf_state) × (null vector_at ≡ true))
            ⊎ Searched lib parent_at
                (node_object parent_node)
                vector_at
                leaf_state
                (parent_found vector_at)
                refl
                refl
                refl
                "spam"
                2
                (child_at ∷ [])
                u))
      (λ e u. ⊥)
      (find_child lib parent_at "spam" leaf_state)
find_child_example =
    find_child-Ends lib parent_at (node_object parent_node) vector_at leaf_state
      (parent_found vector_at) refl refl refl "spam" 2 (child_at ∷ []) (child_node vector_at ∷ [])
      (inr (vector-Stored vector_at)) (children vector_at)

abbrev pub every : String → Bool
every s = true

leaf_exists_example :
    Ends
      (λ _ u. ⊥)
      (λ e u.
        (e ≡ leaf_exists)
        × After lib every parent_at
            (node_object parent_node)
            parent_node
            leaf_state
            (parent_found vector_at)
            refl
            refl
            refl
            refl
            refl
            "name"
            "spam"
            refl
            refl
            refl
            2
            (child_at ∷ [])
            (child_node vector_at ∷ [])
            (vector-Stored vector_at)
            (children vector_at)
            child_at
            (child_node vector_at)
            refl
            (child-Node vector_at)
            refl
            u)
      (add_node lib every parent_at (("name", "spam") ∷ []) (1 ∷ []) leaf_state)
leaf_exists_example =
    add_node-leaf lib every parent_at (node_object parent_node) parent_node leaf_state
      (parent_found vector_at) refl refl refl refl refl "name" "spam" refl refl refl 2
      (child_at ∷ []) (child_node vector_at ∷ []) (vector-Stored vector_at) (children vector_at)
      child_at (child_node vector_at) refl (child-Node vector_at) refl [] (1 ∷ []) refl
