-- ===== src/Examples/Values.antt =====
-- A push onto a full vector of values, behind one of the pointers of an array.
use pmem.Prelude.{
  ℕ, ◌*◌, ◌≤◌, ◌≡◌, refl, inr, Option, some, List, [], ◌∷◌, arith, replicate, length,
  length-replicate,
}
use pmem.Oid.{Oid, oid_null}
use pmem.Vector.Data.{VectorData}
use pmem.Memory.Objects.{vector, values, Object, State}
use pmem.Memory.Access.{update}
use pmem.Memory.Ends.{Ends}
use pmem.Ptr.Location.{Location, slot}
use pmem.PersistentPodVector.{push_back}
use pmem.PersistentPodVector.Standing.{Stored}
use pmem.PersistentPodVector.Push.{Vec, Failed, push_back-Ends}
use pmem.Examples.Library.{lib, empty_state}

abbrev at_array : Oid
at_array = record { pool_uuid_lo = 7; off = 100 }

abbrev at_values : Oid
at_values = record { pool_uuid_lo = 7; off = 200 }

abbrev array : Object
array = record {
  type_num = 1;
  size = 48;
  content = vector (record { nelem = 2; allocated_size = 2; elements = oid_null ∷ at_values ∷ [] });
}

abbrev one_value : VectorData ℕ
one_value = record { nelem = 1; allocated_size = 1; elements = 5 ∷ [] }

abbrev value_object : Object
value_object = record { type_num = 3; size = 24; content = values one_value }

abbrev heap_of : Oid → Option Object
heap_of p =
    update (λ q. update empty_state.heap at_array (some array) q) at_values (some value_object) p

abbrev start : State
start = record empty_state { heap = heap_of; opened = 3 ∷ [] }

abbrev second : Location
second = slot at_array 1

-- Memory that was not set holds 9 everywhere.
abbrev memory : Oid → ℕ → List ℕ
memory p n = replicate n 9

memory_exact : (p : Oid) (n : ℕ) → length (memory p n) ≡ n
memory_exact p n = length-replicate n 9

start-Stored : Stored 3 1 at_values (5 ∷ []) start
unfolding update
start-Stored = record {
  object = value_object;
  vec = one_value;
  at = refl;
  typed = refl;
  is = refl;
  holds = record {
    layout = refl;
    exact = refl;
    fits = omega arith;
    slots = refl;
    in_word = omega arith;
  };
  capacity = refl;
  some_room = omega arith;
  alive = refl;
}

array_at : start.heap at_array ≡ some array
unfolding update
array_at = refl

push_value_example :
    Ends
      (λ _ u.
        (m : ℕ) × (m ≤ 1 * 2)
        × Vec lib 3 memory memory_exact second array at_values refl start refl m (5 ∷ 6 ∷ []) u)
      (Failed lib 3 memory memory_exact second array at_values refl start refl 1 (5 ∷ []))
      (push_back lib 8 3 memory second 6 start)
push_value_example =
    push_back-Ends lib 3 memory memory_exact second array at_values refl start refl (5 ∷ []) 1 6
      array_at refl (inr start-Stored) (omega arith) (omega arith)
