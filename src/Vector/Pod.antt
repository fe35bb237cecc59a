-- ===== src/Vector/Pod.antt =====
-- `PersistentPODVectorData` of src/pmem/PersistentPODVector.h: an array of plain values. A value
-- counts from the moment that the count includes it.
pub mod Holds
pub mod Crash
use pmem.Prelude.{ℕ, zero, suc, ◌+◌, ◌%◌, Bool, List, ◌==◌, ltb, leb, if◌then◌else◌, length, word}
use pmem.Prelude.Result.{out_of_range, fault, Result, ok, err}
use pmem.Vector.Data.{
  VectorData, store_nelem, flush_elem, flush_nelem, Method, emit, pure, throw, self, assert,
  write_elem, lift, copy, ◌>>=◌, ◌>>◌,
}

module _ {A : Type 0} where
  -- The constructor by size leaves the slots as the memory was.
  unfoldable pub construct : List A → ℕ → Result (VectorData A)
  construct raw max_size =
      if leb max_size (length raw)
      then ok (record { nelem = 0; allocated_size = max_size; elements = raw })
      else err fault

  -- `size`
  unfoldable pub size : Method A ℕ
  size = do d ← self; assert (leb d.nelem d.allocated_size); pure d.nelem

  -- `full`
  unfoldable pub full : Method A Bool
  full = do d ← self; assert (leb d.nelem d.allocated_size); pure (d.nelem == d.allocated_size)

  -- `push_back`
  unfoldable pub push_back : A → Method A (Unit {0})
  push_back value = do
    d ← self
    assert (leb d.nelem d.allocated_size)
    if d.nelem == d.allocated_size then throw out_of_range else do
      write_elem d.nelem value
      emit (flush_elem d.nelem)
      emit (store_nelem ((d.nelem + 1) % word))
      emit flush_nelem

  copied : List A → ℕ → ℕ → List A → Result (VectorData A)
  copied raw max_size n source =
      if leb max_size (length raw)
      then (elim (copy n 0 source raw) [
        | err e ↦ err e
        | ok slots ↦ ok (record { nelem = n; allocated_size = max_size; elements = slots })
      ])
      else err fault

  -- The constructor by copy, a method of the source.
  unfoldable pub construct_copy : List A → ℕ → Method A (VectorData A)
  unfolding copied
  construct_copy raw max_size = do
    n ← size
    assert (ltb n max_size)
    d ← self
    lift (copied raw max_size n d.elements)
