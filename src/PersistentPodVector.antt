-- ===== src/PersistentPodVector.antt =====
-- `PersistentPODVector<T>` (src/pmem/PersistentPODVector.h): a pointer to the data of a vector of
-- plain values, which are copied into a larger allocation when they are full. `width` is
-- `sizeof(T)`, which is the alignment of `T` or a multiple of it, `type_id` is
-- `PersistentType<PersistentPODVectorData<T> >::type_id`, and `memory p n` are the values that the
-- first `n` slots of a new allocation at `p` happen to hold.
pub mod Standing
pub mod Make
pub mod Grow
pub mod Push
use pmem.Prelude.{
  ℕ, ◌+◌, ◌-◌, ◌*◌, ◌/◌, ◌%◌, Bool, Option, some, List, [], ◌∷◌, ◌++◌, ◌==◌, if◌then◌else◌, word,
}
use pmem.Prelude.Result.{fault, Result, ok, err}
use pmem.Oid.{Oid, null}
use pmem.Vector.Data.{VectorData, Event, flush_elem, flush_nelem, Method}
use pmem.Vector.Data
use pmem.Vector.Pod
use pmem.Memory.Objects.{Content, values, Object, Flush, State}
use pmem.Memory.Access.{M, pure, lift, assert, load, store, update, ◌>>=◌, ◌>>◌}
use pmem.Memory.Pmemobj.{Pmemobj}
use pmem.Ptr.Constructor.{AtomicConstructor}
use pmem.Ptr.Location.{Location, read}
use pmem.Ptr.Pointer.{allocate_at, replace_at, get}

module _ (width : ℕ) where
  -- The flushes among the events of a method: `sizeof(T)` or `sizeof(size_t)` bytes.
  unfoldable pub flushes_of : Oid → List (Event ℕ) → List Flush
  flushes_of p [] = []
  flushes_of p (flush_elem i ∷ es) = record { object = p; bytes = width } ∷ flushes_of p es
  flushes_of p (flush_nelem ∷ es) = record { object = p; bytes = 8 } ∷ flushes_of p es
  flushes_of p (e ∷ es) = flushes_of p es

  -- The state after a method has run on the values at `p`.
  abbrev pub with_values : Oid → Object → VectorData ℕ → List (Event ℕ) → State → State
  with_values p o d es s = record s {
    heap = update s.heap p (some (record o { content = values d }));
    flushes = s.flushes ++ flushes_of p es;
  }

  on_content : {B : Type 0} → Oid → Method ℕ B → Object → Content → M B
  on_content p m o (values d) s =
      let (r, t) = m (record { now = d; events = [] }) in (r, with_values p o t.now t.events s)
  on_content p m o _ s = (err fault, s)

  -- A method runs on the values at `p`; on anything else its effect is undefined.
  unfoldable pub on_values : {B : Type 0} → Oid → Method ℕ B → M B
  unfolding load on_content
  on_values p m = do o ← load p; on_content p m o o.content

  -- `data_size`, in `size_t` arithmetic: `sizeof(PersistentPODVectorData<T>)` is two counts and one
  -- value, filled up to a multiple of 8.
  unfoldable pub data_size : ℕ → ℕ
  data_size max_size =
      (16 + ((width + 7) / 8) * 8 + (((max_size + word - 1) % word) * width)) % word

  -- The slots that fit behind the two counts in an allocation of `size` bytes.
  unfoldable pub slots_in : ℕ → ℕ
  slots_in size = (size - 16) / width

module _ (width type_id : ℕ) (memory : Oid → ℕ → List ℕ) where
  -- The constructor of new data.
  unfoldable pub sized : ℕ → AtomicConstructor
  unfolding data_size slots_in
  sized max_size = record {
    size = data_size width max_size;
    type_id = type_id;
    make = λ p. do
      d ← lift (Pod.construct (memory p (slots_in width (data_size width max_size))) max_size)
      store p (values d);
  }

  -- The constructor of data that are copied from those at `source`.
  unfoldable pub resized : Oid → ℕ → AtomicConstructor
  unfolding data_size slots_in
  resized source max_size = record {
    size = data_size width max_size;
    type_id = type_id;
    make = λ p. do
      d ←
          on_values width source
            (Pod.construct_copy (memory p (slots_in width (data_size width max_size))) max_size)
      store p (values d);
  }

module _ (lib : Pmemobj) (width type_id : ℕ) (memory : Oid → ℕ → List ℕ) where
  -- A method of the data, through `get()`.
  unfoldable pub on_data : {B : Type 0} → Oid → Method ℕ B → M B
  unfolding on_values
  on_data oid m = do get lib type_id oid; on_values width oid m

  -- `size`
  unfoldable pub size : Location → M ℕ
  size l = do oid ← read l; if null oid then pure 0 else on_data oid Pod.size

  -- `allocated_size`
  unfoldable pub allocated_size : Location → M ℕ
  allocated_size l = do oid ← read l; if null oid then pure 0 else on_data oid Data.allocated_size

  -- `operator[]`
  unfoldable pub element : Location → ℕ → M ℕ
  element l i = do oid ← read l; on_data oid (Data.element i)

  -- `resize`
  unfoldable pub resize : Location → ℕ → M (Unit {0})
  resize l new_size = do
    oid ← read l
    if null oid
        then allocate_at lib l (sized width type_id memory new_size)
        else (do get lib type_id oid; replace_at lib l (resized width type_id memory oid new_size))

  -- The first lines of `push_back`.
  unfoldable pub first_allocation : Location → M (Unit {0})
  first_allocation l = do
    oid ← read l
    if null oid
        then (do allocate_at lib l (sized width type_id memory 1); n ← size l; assert (n == 0))
        else pure tt

  -- `push_back`
  unfoldable pub push_back : Location → ℕ → M (Unit {0})
  unfolding first_allocation resize size on_data
  push_back l value = do
    first_allocation l
    oid ← read l
    full ← on_data oid Pod.full
    if full then (do sz ← size l; resize l ((sz * 2) % word)) else pure tt
    oid ← read l
    on_data oid (Pod.push_back value)
