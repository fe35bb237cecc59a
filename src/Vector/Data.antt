-- ===== src/Vector/Data.antt =====
-- The members of the two vector data classes, the stores and flushes that their methods make, and
-- the methods themselves as far as they stay inside the allocation.
pub mod Copy
use pmem.Prelude.{
  ℕ, zero, suc, ◌+◌, ◌-◌, ◌*◌, ◌%◌, Bool, true, false, Option, none, some, List, [], ◌∷◌, ◌++◌,
  ◌==◌, ltb, leb, if◌then◌else◌, get_elem?, set, length, replicate, take, word,
}
use pmem.Prelude.Result.{Error, assertion_failed, out_of_range, fault, Result, ok, err}
use pmem.Oid.{Oid, oid_null, null}

-- `elements` is the memory behind the header: as many slots as were allocated.
pub record VectorData (A : Type 0) : Type 0 where
  pub nelem : ℕ
  pub allocated_size : ℕ
  pub elements : List A

-- A store to a location of the data, or a flush of it to persistent memory. The assignment of a slot
-- is one store, whatever its size; Vector.Crash says what of it may reach persistent memory.
pub data Event (A : Type 0) : Type 0 where
  store_elem : ℕ → A → Event A
  store_nelem : ℕ → Event A
  flush_elem : ℕ → Event A
  flush_nelem : Event A

-- The data as the processor sees it, and the events so far.
pub record Image (A : Type 0) : Type 0 where
  pub now : VectorData A
  pub events : List (Event A)

abbrev pub Method : Type 0 → Type 0 → Type 0
Method A B = Image A → Result B × Image A

module _ {A : Type 0} where
  -- What an event does to the data that the processor sees.
  abbrev pub apply : Event A → VectorData A → VectorData A
  apply (store_elem i v) d = record d { elements = set d.elements i v }
  apply (store_nelem n) d = record d { nelem = n }
  apply (flush_elem i) d = d
  apply flush_nelem d = d

  abbrev pub emit : Event A → Method A (Unit {0})
  emit e s = (ok tt, record { now = apply e s.now; events = s.events ++ e ∷ [] })

  abbrev pub pure : {B : Type 0} → B → Method A B
  pure b s = (ok b, s)

  abbrev pub throw : {B : Type 0} → Error → Method A B
  throw e s = (err e, s)

  abbrev pub lift : {B : Type 0} → Result B → Method A B
  lift r s = (r, s)

  abbrev pub self : Method A (VectorData A)
  self s = (ok s.now, s)

  abbrev pub assert : Bool → Method A (Unit {0})
  assert true s = (ok tt, s)
  assert false s = (err assertion_failed, s)

  -- A read of `elements_[i]`: outside the allocation it is undefined.
  abbrev pub load_elem : ℕ → Method A A
  load_elem i s = elim (get_elem? s.now.elements i) [ none ↦ (err fault, s) | some v ↦ (ok v, s) ]

  -- A store to `elements_[i]`, with the same bound.
  abbrev pub write_elem : ℕ → A → Method A (Unit {0})
  write_elem i v s =
      if ltb i (length s.now.elements) then emit (store_elem i v) s else (err fault, s)

module _ {A B C : Type 0} where
  abbrev pub continue : Result B × Image A → (B → Method A C) → Result C × Image A
  continue (ok b, s) f = f b s
  continue (err e, s) f = (err e, s)

  infixl 5 ◌>>=◌ ◌>>◌
  abbrev pub ◌>>=◌ : Method A B → (B → Method A C) → Method A C
  ◌>>=◌ m f s = continue (m s) f

  abbrev pub ◌>>◌ : Method A B → Method A C → Method A C
  m >> n = m >>= λ _. n

module _ {A : Type 0} where
  -- `update_nelem`
  unfoldable pub update_nelem : ℕ → Method A (Unit {0})
  update_nelem n = do emit (store_nelem n); emit flush_nelem

  -- `allocated_size`
  unfoldable pub allocated_size : Method A ℕ
  allocated_size = do d ← self; pure d.allocated_size

  -- `operator[]` has no test: outside the allocation the read is undefined.
  unfoldable pub element : ℕ → Method A A
  element i = load_elem i

-- `for (i = 0; i < n; i++) elements_[i] = source.elements_[i];`
unfoldable pub copy : {A : Type 0} → ℕ → ℕ → List A → List A → Result (List A)
copy zero i source slots = ok slots
copy (suc k) i source slots = elim (get_elem? source i) [
  | none ↦ err fault
  | some v ↦ copy k (suc i) source (set slots i v)
]
