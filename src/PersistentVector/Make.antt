-- ===== src/PersistentVector/Make.antt =====
-- The sizes of a vector's allocations, and what its two constructors leave in memory.
use pmem.Prelude.{
  ℕ, ◌+◌, ◌*◌, ◌≡◌, ◌<◌, refl, ◌∙◌, false, none, some, List, [], arith, replicate, length,
  length-replicate, word,
}
use pmem.Prelude.Result.{ok}
use pmem.Oid.{Oid, oid_null, oid_eq}
use pmem.Vector.Data.{VectorData, Image}
use pmem.Vector.Pointer
use pmem.Vector.Pointer.Holds.{Holds}
use pmem.Vector.Pointer.Check.{mended}
use pmem.Vector.Pointer.Construct.{data_of, construct_lem, construct_copy_lem}
use pmem.Memory.Objects.{uninit, vector, Object, State}
use pmem.Memory.Access.{set_object, on_vector_lem, store_lem, with_vector}
use pmem.Memory.Pmemobj.{reserve}
use pmem.PersistentVector.{data_size, slots_in, sized, resized, sizeof_data}
use pmem.PersistentVector.Standing.{update_self, update_ne, oid_eq_comm, ne_of_free}

-- For `n` above 0 with `n * 16 + 16` below 2^64, an allocation of `data_size n` bytes has exactly
-- `n` slots.
pub slots_in-data_size : (n : ℕ) → 0 < n → n * 16 + 16 < word → slots_in (data_size n) ≡ n
unfolding slots_in data_size
slots_in-data_size n pos small = omega arith

abbrev raw_object : ℕ → ℕ → Object
raw_object type_id size = record { type_num = type_id; size = size; content = uninit }

abbrev pub data_object : ℕ → ℕ → VectorData Oid → Object
data_object type_id size d = record { type_num = type_id; size = size; content = vector d }

-- The memory after an object has been constructed at `p`.
abbrev pub built : Oid → ℕ → ℕ → VectorData Oid → State → State
built p size type_id d s =
    set_object p (some (data_object type_id size d)) (reserve p size type_id s)

pub sized-make :
    (type_id size n : ℕ) (p : Oid) (s : State)
    → slots_in size ≡ n
    → (let c = sized type_id size n in c.make p (reserve p c.size c.type_id s))
      ≡ (ok tt, built p size type_id (data_of [] n) s)
unfolding sized
sized-make type_id size n p s e =
    rw (construct_lem (replicate (slots_in size) oid_null) n (length-replicate _ oid_null ∙ e)) (
      store_lem p (vector (data_of [] n)) (raw_object type_id size) (reserve p size type_id s)
        (update_self _ _ _))

-- The image in which the copying constructor leaves the source.
abbrev pub source_image : List Oid → VectorData Oid → Image Oid
source_image xs d = mended (length xs) (record { now = d; events = [] })

abbrev pub rebuilt : Oid → ℕ → ℕ → List Oid → Oid → Object → VectorData Oid → State → State
rebuilt p n type_id xs source o d s =
    set_object p (some (data_object type_id (data_size n) (data_of xs n))) (
      with_vector source o (source_image xs d).now (source_image xs d).events
        (reserve p (data_size n) type_id s))

pub resized-make :
    (type_id n : ℕ) {xs : List Oid} (source : Oid) (o : Object) (d : VectorData Oid) (p : Oid)
    (s : State)
    → s.heap p ≡ none
    → s.heap source ≡ some o
    → o.content ≡ vector d
    → Holds d xs
    → length xs < n
    → n * 16 + 16 < word
    → (let c = resized type_id source n in c.make p (reserve p c.size c.type_id s))
      ≡ (ok tt, rebuilt p n type_id xs source o d s)
unfolding resized
resized-make type_id n {xs} source o d p s free at is h room small =
    let apart = ne_of_free s.heap p source o free at in
    let raw = replicate (slots_in (data_size n)) oid_null in
    let exact : length raw ≡ n =
      length-replicate _ oid_null ∙ slots_in-data_size n (omega arith) small in
    rw
      (on_vector_lem source (Pointer.construct_copy raw n) o d (reserve p (data_size n) type_id s)
        (update_ne _ p source _ apart ∙ at) is)
      (rw (construct_copy_lem (record { now = d; events = [] }) h raw n exact room) (
        store_lem p (vector (data_of xs n)) (raw_object type_id (data_size n))
          (with_vector source o (source_image xs d).now (source_image xs d).events
            (reserve p (data_size n) type_id s))
          (update_ne _ source p _ (oid_eq_comm source p apart) ∙ update_self _ _ _)))

-- Away from the new object, construction leaves the heap as it was, but for the source's count.
pub built_ne :
    (p : Oid) (bytes type_id : ℕ) (d : VectorData Oid) (s : State) (q : Oid)
    → oid_eq q p ≡ false
    → (built p bytes type_id d s).heap q ≡ s.heap q
built_ne p bytes type_id d s q e = update_ne _ p q _ e ∙ update_ne _ p q _ e

pub rebuilt_ne :
    (p : Oid) (n type_id : ℕ) (xs : List Oid) (source : Oid) (o : Object) (d : VectorData Oid)
    (s : State) (q : Oid)
    → oid_eq q p ≡ false
    → oid_eq q source ≡ false
    → (rebuilt p n type_id xs source o d s).heap q ≡ s.heap q
rebuilt_ne p n type_id xs source o d s q e f =
    update_ne _ p q _ e ∙ update_ne _ source q _ f ∙ update_ne _ p q _ e

-- `allocate(1)` reserves `sizeof(PersistentVectorData<T>)` bytes, which is one slot.
pub slots_in-sizeof : slots_in sizeof_data ≡ 1
unfolding slots_in
slots_in-sizeof = refl
