-- ===== src/PersistentVector.antt =====
-- `PersistentVector<T>` (src/pmem/PersistentVector.h): a pointer to a vector's data, which are
-- copied into a larger allocation when they are full. Its methods take the pointer's location, and
-- `type_id`, which is `PersistentType<PersistentVectorData<T> >::type_id`.
pub mod Standing
pub mod Make
pub mod Grow
pub mod Steps
pub mod Push
pub mod PushData
use pmem.Prelude.{
  ℕ, ◌+◌, ◌-◌, ◌*◌, ◌/◌, ◌%◌, Bool, true, false, Option, none, some, ◌==◌, if◌then◌else◌, replicate,
  word,
}
use pmem.Prelude.Result.{ok, err}
use pmem.Oid.{Oid, oid_null, null}
use pmem.Vector.Data.{VectorData, Method, self}
use pmem.Vector.Data
use pmem.Vector.Pointer
use pmem.Memory.Objects.{vector, Object, State}
use pmem.Memory.Access.{M, pure, lift, assert, store, on_vector, ◌>>=◌, ◌>>◌}
use pmem.Memory.Pmemobj.{Pmemobj}
use pmem.Ptr.Constructor.{AtomicConstructor, passing}
use pmem.Ptr.Location.{Location, slot, read}
use pmem.Ptr.Pointer.{allocate_at, replace_at, get}

-- `sizeof(PersistentVectorData<T>)`: two counts and one pointer
abbrev pub sizeof_data : ℕ
sizeof_data = 32

-- `data_size`, in `size_t` arithmetic; 16 is `sizeof(PersistentPtr<T>)`.
unfoldable pub data_size : ℕ → ℕ
data_size max_size = (sizeof_data + ((max_size + word - 1) % word) * 16) % word

-- The slots that fit behind the two counts in an allocation of `size` bytes.
unfoldable pub slots_in : ℕ → ℕ
slots_in size = (size - 16) / 16

-- The constructor of new data. What the slots held before does not matter, since it nullifies
-- them: the model takes them to be null.
unfoldable pub sized : ℕ → ℕ → ℕ → AtomicConstructor
unfolding slots_in
sized type_id size max_size = record {
  size = size;
  type_id = type_id;
  make = λ p. do
    d ← lift (Pointer.construct (replicate (slots_in size) oid_null) max_size)
    store p (vector d);
}

-- The constructor of data that are copied from those at `source`.
unfoldable pub resized : ℕ → Oid → ℕ → AtomicConstructor
unfolding data_size slots_in
resized type_id source max_size = record {
  size = data_size max_size;
  type_id = type_id;
  make = λ p. do
    d ←
        on_vector source
          (Pointer.construct_copy (replicate (slots_in (data_size max_size)) oid_null) max_size)
    store p (vector d);
}

module _ (lib : Pmemobj) (type_id : ℕ) where
  -- A method of the data, through `get()`.
  unfoldable pub on_data : {B : Type 0} → Oid → Method Oid B → M B
  on_data oid m = do get lib type_id oid; on_vector oid m

  -- `size`
  unfoldable pub size : Location → M ℕ
  size l = do oid ← read l; if null oid then pure 0 else on_data oid Pointer.size

  -- `allocated_size`
  unfoldable pub allocated_size : Location → M ℕ
  allocated_size l = do oid ← read l; if null oid then pure 0 else on_data oid Data.allocated_size

  -- `operator[]`
  unfoldable pub element : Location → ℕ → M Oid
  element l i = do oid ← read l; on_data oid (Data.element i)

  -- `resize`
  unfoldable pub resize : Location → ℕ → M (Unit {0})
  resize l new_size = do
    oid ← read l
    if null oid
        then allocate_at lib l (sized type_id (data_size new_size) new_size)
        else (do get lib type_id oid; replace_at lib l (resized type_id oid new_size))

  -- The first lines of both `push_back`s. `allocate(1)` passes an `int`, for which the constructor's
  -- size is `sizeof(PersistentVectorData<T>)`.
  unfoldable pub first_allocation : Location → M (Unit {0})
  first_allocation l = do
    oid ← read l
    if null oid
        then (do allocate_at lib l (sized type_id sizeof_data 1); n ← size l; assert (n == 0))
        else pure tt

  -- `push_back_elem`
  unfoldable pub push_back_elem : Location → Oid → M (Unit {0})
  push_back_elem l elem = do
    first_allocation l
    oid ← read l
    full ← on_data oid Pointer.full
    if full then (do sz ← size l; resize l ((sz * 2) % word)) else pure tt
    oid ← read l
    on_data oid (Pointer.push_back_elem elem)

  -- `PersistentVectorData<T>::push_back`: the slot at the count is allocated in place.
  unfoldable pub push_back_data : Oid → AtomicConstructor → M Oid
  push_back_data oid c = do
    stored_elem ← on_vector oid Pointer.free_slot
    allocate_at lib (slot oid stored_elem) c
    on_vector oid Pointer.count_one
    on_vector oid (Data.element stored_elem)

  -- `push_back_ctr`
  unfoldable pub push_back_ctr : Location → AtomicConstructor → M Oid
  push_back_ctr l c = do
    first_allocation l
    n ← size l
    room ← allocated_size l
    if n == room
        then (do oid ← read l; sz ← size l; resize l (if null oid then 1 else (sz * 2) % word))
        else pure tt
    oid ← read l
    get lib type_id oid
    push_back_data oid c

  -- `push_back(x1, ...)`
  unfoldable pub push_back : Location → (sizeof type_id : ℕ) → (Oid → M (Unit {0})) → M Oid
  unfolding push_back_ctr passing
  push_back l sizeof elem_type_id make = push_back_ctr l (passing sizeof elem_type_id make)
