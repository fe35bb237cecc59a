-- ===== src/Examples/Pointers.antt =====
-- Allocation, replacement and a vector's pushes in a small memory.
use pmem.Prelude.{ℕ, ◌*◌, ◌≤◌, ◌≡◌, refl, inl, Option, some, [], ◌∷◌, arith, ◌∙◌}
use pmem.Prelude.Result.{Error, allocation_error}
use pmem.Oid.{Oid, oid_null}
use pmem.Vector.Pointer.Construct.{data_of}
use pmem.Memory.Objects.{node, Object, State}
use pmem.Memory.Access.{update}
use pmem.Memory.Ends.{Ends, returns}
use pmem.Memory.Pmemobj.{reserve}
use pmem.Ptr.Constructor.{AtomicConstructor, pmem_constructor}
use pmem.Ptr.Constructor.Flush.{Reports, pmem_constructor-Reports}
use pmem.Ptr.Location.{items}
use pmem.Ptr.Pointer.{allocate_ctr, allocate_at, replace_at}
use pmem.Ptr.Pointer.Allocate.{
  Makes, Placed, Published, Replaced, allocate_ctr-Ends, allocate_at-Ends, replace_at-Ends,
}
use pmem.PersistentVector.{sized, sizeof_data, push_back_elem, slots_in, data_size}
use pmem.PersistentVector.Standing.{ne_of_free}
use pmem.PersistentVector.Make.{built, built_ne, sized-make, slots_in-sizeof, slots_in-data_size}
use pmem.PersistentVector.Steps.{Vec}
use pmem.PersistentVector.Push.{Failed, push_back_elem-Ends}
use pmem.Examples.Library.{lib, empty_state}

slots_in_example : slots_in (data_size 4) ≡ 4
slots_in_example = slots_in-data_size 4 (omega arith) (omega arith)

-- The address of a node, and that of the vector that its items are in.
abbrev at_node : Oid
at_node = record { pool_uuid_lo = 7; off = 100 }

abbrev at_items : Oid
at_items = record { pool_uuid_lo = 7; off = 200 }

abbrev node_with : Oid → Object
node_with q = record {
  type_num = 1;
  size = 56;
  content = node (record { items = q; payload = oid_null; value = "v"; key = "k" });
}

abbrev heap_with : Oid → Oid → Option Object
heap_with q p = update empty_state.heap at_node (some (node_with q)) p

abbrev state_with : Oid → State
state_with q = record empty_state { heap = heap_with q; opened = 3 ∷ [] }

node_at : (q : Oid) → (state_with q).heap at_node ≡ some (node_with q)
unfolding update
node_at q = refl

abbrev MadeAt : Oid → Oid → State → Type 0
MadeAt q p t = t ≡ built p sizeof_data 2 (data_of [] 1) (state_with q)

abbrev FailedAt : Oid → Error → State → Type 0
FailedAt q e t = (e ≡ allocation_error) × (t ≡ state_with q)

abbrev constructor : AtomicConstructor
constructor = sized 2 sizeof_data 1

makes : (q : Oid) → Makes lib 3 constructor (state_with q) (MadeAt q) (FailedAt q)
makes q p free alive lies =
    rw (sized-make 2 sizeof_data 1 p (state_with q) slots_in-sizeof) (returns refl)

makes_beside :
    (q : Oid)
    → Makes lib 3 constructor
        (state_with q)
        (λ p t. MadeAt q p t × (t.heap at_node ≡ some (node_with q)))
        (FailedAt q)
makes_beside q p free alive lies =
    rw (sized-make 2 sizeof_data 1 p (state_with q) slots_in-sizeof) (
      returns (
        refl,
        built_ne p sizeof_data 2 (data_of [] 1) (state_with q) at_node
              (ne_of_free (state_with q).heap p at_node (node_with q) free (node_at q))
            ∙ node_at q,
      ))

allocate_ctr_example :
    Ends
      (Placed (state_with oid_null) (MadeAt oid_null))
      (FailedAt oid_null)
      (allocate_ctr lib 3 oid_null constructor (state_with oid_null))
allocate_ctr_example =
    allocate_ctr-Ends lib constructor (state_with oid_null) (MadeAt oid_null) (FailedAt oid_null) 3
      oid_null refl (refl, refl) (makes oid_null)

allocate_at_example :
    Ends
      (Published lib
        (items at_node)
        (state_with oid_null)
        (node_at oid_null)
        refl
        refl
        constructor
        (MadeAt oid_null)
        (FailedAt oid_null))
      (FailedAt oid_null)
      (allocate_at lib (items at_node) constructor (state_with oid_null))
allocate_at_example =
    allocate_at-Ends lib (items at_node) (state_with oid_null) (node_at oid_null) refl refl
      constructor (MadeAt oid_null) (FailedAt oid_null) refl (refl, refl) (makes_beside oid_null)

replace_at_example :
    Ends
      (Replaced lib
        (items at_node)
        (state_with at_items)
        (node_at at_items)
        refl
        refl
        constructor
        (MadeAt at_items)
        (FailedAt at_items))
      (FailedAt at_items)
      (replace_at lib (items at_node) constructor (state_with at_items))
replace_at_example =
    replace_at-Ends lib (items at_node) (state_with at_items) (node_at at_items) refl refl
      constructor (MadeAt at_items) (FailedAt at_items) refl (refl, refl)
      (λ t h. rw h.1 (node_at at_items)) (makes_beside at_items)

push_elem_example :
    Ends
      (λ _ u.
        (m : ℕ) × (m ≤ 1 * 2)
        × Vec lib 2
            (items at_node)
            (node_with oid_null)
            oid_null
            refl
            oid_null
            (state_with oid_null)
            refl
            m
            (at_items ∷ [])
            u)
      (Failed lib 2
        (items at_node)
        (node_with oid_null)
        oid_null
        (state_with oid_null)
        (node_at oid_null)
        refl
        refl
        refl
        1
        [])
      (push_back_elem lib 2 (items at_node) at_items (state_with oid_null))
push_elem_example =
    push_back_elem-Ends lib 2 (items at_node) (node_with oid_null) oid_null (state_with oid_null)
      (node_at oid_null) refl refl refl [] 1 at_items (inl (refl, refl)) refl (omega arith)
      (omega arith)

-- A new vector is not flushed when it has been made.
reports_example :
    Reports at_items sizeof_data
      (constructor.make at_items (reserve at_items sizeof_data 2 (state_with oid_null)))
      (pmem_constructor constructor at_items (reserve at_items sizeof_data 2 (state_with oid_null)))
unfolding sized
reports_example =
    pmem_constructor-Reports constructor at_items
      (reserve at_items sizeof_data 2 (state_with oid_null))
