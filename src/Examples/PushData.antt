-- ===== src/Examples/PushData.antt =====
-- A push onto the data of a vector with a free slot: a new vector's data are what is allocated.
use pmem.Prelude.{◌≡◌, refl, [], ◌∷◌, arith, ◌∙◌, some, false}
use pmem.Prelude.Result.{Error, allocation_error}
use pmem.Oid.{Oid, oid_eq}
use pmem.Vector.Pointer.Construct.{data_of}
use pmem.Memory.Objects.{State}
use pmem.Memory.Ends.{Ends, returns}
use pmem.Ptr.Constructor.{AtomicConstructor}
use pmem.Ptr.Pointer.Allocate.{Makes, Placed}
use pmem.PersistentVector.{sized, sizeof_data, push_back_data}
use pmem.PersistentVector.Standing.{ne_of_free, update_self, Stored}
use pmem.PersistentVector.Make.{built, built_ne, sized-make, slots_in-sizeof}
use pmem.PersistentVector.PushData.{own, checked, push_back_data-Ends}
use pmem.Examples.Library.{lib}
use pmem.Examples.Search.{vector_at, child_at, leaf_state, vector-Stored}

abbrev start : State
start = checked (vector-Stored vector_at) (omega arith)

abbrev element : AtomicConstructor
element = sized 2 sizeof_data 1

abbrev Built : Oid → State → Type 0
Built p t = t ≡ built p sizeof_data 2 (data_of [] 1) start

abbrev Refused : Error → State → Type 0
Refused e t = (e ≡ allocation_error) × (t ≡ start)

makes :
    Makes lib 3 element start
      (λ p t. Built p t × (t.heap vector_at ≡ some (own (vector-Stored vector_at) (omega arith))))
      Refused
makes p free alive lies = rw (sized-make 2 sizeof_data 1 p start slots_in-sizeof) (
    returns (
      refl,
      built_ne p sizeof_data 2 (data_of [] 1) start vector_at (
            ne_of_free start.heap p vector_at (own (vector-Stored vector_at) (omega arith)) free
              (update_self _ _ _))
          ∙ update_self _ _ _,
    ))

push_data_example :
    Ends
      (λ p w.
        (v : State) × Placed start Built p v
        × Stored 2 2 vector_at (child_at ∷ p ∷ []) w
        × ((q : Oid) → oid_eq q vector_at ≡ false → w.heap q ≡ v.heap q))
      Refused
      (push_back_data lib 2 vector_at element leaf_state)
push_data_example =
    push_back_data-Ends (vector-Stored vector_at) (omega arith) lib refl element Built Refused
      (refl, refl) makes
