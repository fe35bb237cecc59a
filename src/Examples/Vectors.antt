-- ===== src/Examples/Vectors.antt =====
-- Vectors of pointers and of values at concrete inputs.
use pmem.Prelude.{ℕ, ◌≡◌, refl, inl, inr, [], ◌∷◌, arith}
use pmem.Prelude.Result.{ok, err, out_of_range}
use pmem.Oid.{Oid, oid_null}
use pmem.Vector.Data.{VectorData, Image}
use pmem.Vector.Crash.{power_off, step, evict_elem}
use pmem.Vector.Pointer
use pmem.Vector.Pointer.Holds.{Holds}
use pmem.Vector.Pointer.Check.{mended, consistency_check_lem}
use pmem.Vector.Pointer.Push.{pushed, push_back_elem_lem, push_back_elem-full}
use pmem.Vector.Pointer.Construct.{data_of, construct_lem, construct_copy_lem}
use pmem.Vector.Pointer.Crash.{off_only, AfterFailure, push_back_elem-Crash}
use pmem.Vector.Pod
use pmem.Vector.Pod.Holds
use pmem.Vector.Pod.Crash

abbrev p1 : Oid
p1 = record { pool_uuid_lo = 7; off = 64 }

abbrev p2 : Oid
p2 = record { pool_uuid_lo = 7; off = 128 }

-- One pointer in two slots, with a count that a power failure left behind.
abbrev lagging_data : VectorData Oid
lagging_data = record { nelem = 0; allocated_size = 2; elements = p1 ∷ oid_null ∷ [] }

lagging_data-Holds : Holds lagging_data (p1 ∷ [])
lagging_data-Holds = record {
  live = (refl, tt);
  layout = refl;
  fits = omega arith;
  counted = omega arith;
  in_word = omega arith;
}

abbrev full_data : VectorData Oid
full_data = record { nelem = 1; allocated_size = 1; elements = p1 ∷ [] }

full_data-Holds : Holds full_data (p1 ∷ [])
full_data-Holds = record {
  live = (refl, tt);
  layout = refl;
  fits = omega arith;
  counted = omega arith;
  in_word = omega arith;
}

abbrev start : {A : Type 0} → VectorData A → Image A
start d = record { now = d; events = [] }

consistency_check_example :
    Pointer.consistency_check (start lagging_data) ≡ (ok tt, mended 1 (start lagging_data))
consistency_check_example = consistency_check_lem (start lagging_data) lagging_data-Holds

push_back_elem_example :
    Pointer.push_back_elem p2 (start lagging_data)
    ≡ (ok tt, pushed (p1 ∷ []) p2 (mended 1 (start lagging_data)))
push_back_elem_example = push_back_elem_lem (start lagging_data) lagging_data-Holds p2 (omega arith)

push_back_elem-full_example :
    Pointer.push_back_elem p2 (start full_data) ≡ (err out_of_range, mended 1 (start full_data))
push_back_elem-full_example = push_back_elem-full (start full_data) full_data-Holds p2 refl

construct_example : Pointer.construct (p2 ∷ p1 ∷ []) 2 ≡ ok (data_of [] 2)
construct_example = construct_lem (p2 ∷ p1 ∷ []) 2 refl

construct_copy_example :
    Pointer.construct_copy (p2 ∷ p2 ∷ []) 2 (start full_data)
    ≡ (ok (data_of (p1 ∷ []) 2), mended 1 (start full_data))
construct_copy_example =
    construct_copy_lem (start full_data) full_data-Holds (p2 ∷ p2 ∷ []) 2 refl (omega arith)

-- The power fails when only the offset of the new pointer has reached its slot.
abbrev crashed : VectorData Oid
crashed = record { nelem = 1; allocated_size = 2; elements = p1 ∷ off_only p2 ∷ [] }

push_back_elem-Crash_example : AfterFailure (p1 ∷ []) p2 crashed
push_back_elem-Crash_example =
    push_back_elem-Crash lagging_data-Holds p2 refl (omega arith) lagging_data-Holds refl (
      rw (push_back_elem_lem (start lagging_data) lagging_data-Holds p2 (omega arith)) (
        step (
          step (
            step (
              evict_elem 1 oid_null p2 (off_only p2) refl refl (inl refl, inr refl)
                (power_off refl))))))

abbrev one_value : VectorData ℕ
one_value = record { nelem = 1; allocated_size = 2; elements = 5 ∷ 9 ∷ [] }

one_value-Holds : Pod.Holds.Holds one_value (5 ∷ [])
one_value-Holds = record {
  layout = refl;
  exact = refl;
  fits = omega arith;
  slots = refl;
  in_word = omega arith;
}

pod_copy_example :
    Pod.construct_copy (1 ∷ 2 ∷ 3 ∷ []) 3 (start one_value)
    ≡ (ok (record { nelem = 1; allocated_size = 3; elements = 5 ∷ 2 ∷ 3 ∷ [] }), start one_value)
pod_copy_example =
    Pod.Holds.construct_copy-copy_of (start one_value) one_value-Holds (1 ∷ 2 ∷ 3 ∷ []) 3 refl
      (omega arith)

push_back-Crash_example :
    Pod.Crash.BeforeOrAfter (5 ∷ []) 6 (record one_value { elements = 5 ∷ 6 ∷ [] })
push_back-Crash_example = Pod.Crash.push_back-Crash one_value-Holds 6 (omega arith) (
    rw (Pod.Holds.push_back_lem (start one_value) one_value-Holds 6 (omega arith))
      (step (step (power_off refl))))
