-- ===== src/Vector/Pointer.antt =====
-- `PersistentVectorData` of src/pmem/PersistentVector.h: an array of persistent pointers whose
-- count is written after the slot, so that each method first checks and mends the count.
pub mod Check
pub mod Construct
pub mod Crash
pub mod Holds
pub mod Push
use pmem.Prelude.{
  ℕ, zero, suc, ◌+◌, ◌-◌, ◌*◌, ◌%◌, Bool, true, false, not, Option, none, some, List, [], ◌∷◌, ◌++◌,
  ◌==◌, ltb, leb, if◌then◌else◌, get_elem?, set, length, replicate, take, word,
}
use pmem.Prelude.Result.{Error, assertion_failed, out_of_range, fault, Result, ok, err}
use pmem.Oid.{Oid, oid_null, null}
use pmem.Vector.Data.{
  VectorData, Event, store_elem, flush_elem, Image, Method, emit, pure, throw, self, assert,
  load_elem, write_elem, lift, copy, ◌>>=◌, ◌>>◌, update_nelem,
}

-- `for (i = from; i < to; i++) elements_[i].nullify();`, with the rounds left as the first argument
nullify : ℕ → ℕ → List Oid → List Oid
nullify zero i slots = slots
nullify (suc k) i slots = nullify k (suc i) (set slots i oid_null)

-- The constructor by size. `raw` is what the allocation holds behind the header.
unfoldable pub construct : List Oid → ℕ → Result (VectorData Oid)
unfolding nullify
construct raw max_size =
    if leb max_size (length raw)
    then ok (record { nelem = 0; allocated_size = max_size; elements = nullify max_size 0 raw })
    else err fault

-- The loop of `consistency_check`, from `n` on: whether it moved, and where it stopped.
next_null : ℕ → ℕ → Bool → Method Oid (Bool × ℕ)
next_null zero n updated = pure (updated, n)
next_null (suc k) n updated = do
  e ← load_elem n
  elim (null e) [ true ↦ pure (updated, n) | false ↦ next_null k (suc n) true ]

check_last : ℕ → Method Oid (Unit {0})
check_last zero = pure tt
check_last (suc n) = do e ← load_elem n; assert (not (null e))

-- `consistency_check`
unfoldable pub consistency_check : Method Oid (Unit {0})
unfolding check_last next_null update_nelem
consistency_check = do
  d ← self
  check_last d.nelem
  (updated, n) ← next_null (d.allocated_size - d.nelem) d.nelem false
  if updated then update_nelem n else pure tt

-- `size`
unfoldable pub size : Method Oid ℕ
size = do consistency_check; d ← self; assert (leb d.nelem d.allocated_size); pure d.nelem

-- `full`
unfoldable pub full : Method Oid Bool
full = do
  consistency_check
  d ← self
  assert (leb d.nelem d.allocated_size)
  pure (d.nelem == d.allocated_size)

-- The count after a slot is written, for both kinds of `push_back`.
unfoldable pub count_one : Method Oid (Unit {0})
unfolding update_nelem
count_one = do d ← self; update_nelem ((d.nelem + 1) % word)

-- The part of both `push_back`s that precedes the slot's write: the index of the free slot.
unfoldable pub free_slot : Method Oid ℕ
free_slot = do
  consistency_check
  d ← self
  if d.nelem == d.allocated_size then throw out_of_range else pure d.nelem

-- A slot is stored and flushed.
unfoldable pub fill_slot : ℕ → Oid → Method Oid (Unit {0})
fill_slot i elem = do write_elem i elem; emit (flush_elem i)

-- `push_back_elem`
unfoldable pub push_back_elem : Oid → Method Oid (Unit {0})
push_back_elem elem = do i ← free_slot; fill_slot i elem; count_one

-- What the constructor by copy writes into the new allocation.
copied : List Oid → ℕ → ℕ → List Oid → Result (VectorData Oid)
unfolding copy nullify
copied raw max_size n source =
    if leb max_size (length raw)
    then (elim (copy n 0 source raw) [
      | err e ↦ err e
      | ok slots ↦ ok (record {
        nelem = n;
        allocated_size = max_size;
        elements = nullify (max_size - n) n slots;
      })
    ])
    else err fault

-- The constructor by copy, a method of the source, whose `size` mends the source's count.
unfoldable pub construct_copy : List Oid → ℕ → Method Oid (VectorData Oid)
unfolding copied
construct_copy raw max_size = do
  n ← size
  assert (ltb n max_size)
  d ← self
  lift (copied raw max_size n d.elements)
