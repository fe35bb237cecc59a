-- ===== src/PersistentPodVector/Make.antt =====
-- The sizes of the allocations of a vector of values of 8 bytes, and what its two constructors leave
-- in memory.
use pmem.Prelude.{
  ℕ, ◌+◌, ◌*◌, ◌≡◌, ◌<◌, refl, ◌∙◌, none, some, List, [], ◌++◌, arith, length, drop, word,
}
use pmem.Prelude.Result.{ok}
use pmem.Oid.{Oid}
use pmem.Vector.Data.{VectorData}
use pmem.Vector.Pod
use pmem.Vector.Pod.Holds.{Holds, copy_of-Holds, construct_copy-copy_of}
use pmem.Memory.Objects.{uninit, values, Object, State}
use pmem.Memory.Access.{set_object, store_lem}
use pmem.Memory.Pmemobj.{reserve}
use pmem.PersistentVector.Standing.{update_self, update_ne, oid_eq_comm, ne_of_free}
use pmem.PersistentPodVector.{data_size, slots_in, with_values, sized, resized}
use pmem.PersistentPodVector.Standing.{Stored, start_of, on_values_lem}

-- For `n` above 0 with `n * 8 + 16` below 2^64, an allocation of `data_size n` bytes has exactly
-- `n` slots.
pub slots_in-data_size : (n : ℕ) → 0 < n → n * 8 + 16 < word → slots_in 8 (data_size 8 n) ≡ n
unfolding slots_in data_size
slots_in-data_size n pos small = omega arith

module _ (type_id : ℕ) (memory : Oid → ℕ → List ℕ)
    (exact : (p : Oid) (n : ℕ) → length (memory p n) ≡ n) where
  abbrev pub new_data : Oid → ℕ → VectorData ℕ
  new_data p n = record { nelem = 0; allocated_size = n; elements = memory p n }

  pub new_data-Holds : (p : Oid) (n : ℕ) → n < word → Holds (new_data p n) []
  new_data-Holds p n small = record {
    layout = refl;
    exact = refl;
    fits = omega arith;
    slots = exact p n;
    in_word = small;
  }

  abbrev pub data_object : ℕ → VectorData ℕ → Object
  data_object n d = record { type_num = type_id; size = data_size 8 n; content = values d }

  -- The memory after an object has been constructed at `p`.
  abbrev pub built : Oid → ℕ → VectorData ℕ → State → State
  built p n d s = set_object p (some (data_object n d)) (reserve p (data_size 8 n) type_id s)

  construct_lem : (p : Oid) (n : ℕ) → Pod.construct (memory p n) n ≡ ok (new_data p n)
  unfolding Pod.construct
  construct_lem p n = ground (arith, exact p n)

  pub sized-make :
      (n : ℕ) (p : Oid) (s : State)
      → 0 < n
      → n * 8 + 16 < word
      → (let c = sized 8 type_id memory n in c.make p (reserve p c.size c.type_id s))
        ≡ (ok tt, built p n (new_data p n) s)
  unfolding sized
  sized-make n p s pos small = rw (slots_in-data_size n pos small) (
      rw (construct_lem p n) (
        store_lem p (values (new_data p n))
          (record { type_num = type_id; size = data_size 8 n; content = uninit })
          (reserve p (data_size 8 n) type_id s) (update_self _ _ _)))

  module _ {n0 : ℕ} {xs : List ℕ} {oid : Oid} {s : State} (k : Stored type_id n0 oid xs s) (n : ℕ)
      (p : Oid) where
    abbrev pub copied : VectorData ℕ
    copied = record {
      nelem = length xs;
      allocated_size = n;
      elements = xs ++ drop (length xs) (memory p n);
    }

    abbrev pub rebuilt : State
    rebuilt =
        set_object p (some (data_object n copied))
          (with_values 8 oid k.object k.vec [] (reserve p (data_size 8 n) type_id s))

    module _ (free : s.heap p ≡ none) (room : length xs < n) (small : n * 8 + 16 < word) where
      pub resized-make :
          (let c = resized 8 type_id memory oid n in c.make p (reserve p c.size c.type_id s))
          ≡ (ok tt, rebuilt)
      unfolding resized
      resized-make =
          let apart = ne_of_free s.heap p oid k.object free k.at in
          rw (slots_in-data_size n (omega arith) small) (
            rw
              (on_values_lem 8 oid (Pod.construct_copy (memory p n) n) k.object k.vec
                (reserve p (data_size 8 n) type_id s) (update_ne _ p oid _ apart ∙ k.at) k.is)
              (rw (construct_copy-copy_of (start_of k) k.holds (memory p n) n (exact p n) room) (
                store_lem p (values copied)
                  (record { type_num = type_id; size = data_size 8 n; content = uninit })
                  (with_values 8 oid k.object k.vec [] (reserve p (data_size 8 n) type_id s))
                  (update_ne _ oid p _ (oid_eq_comm oid p apart) ∙ update_self _ _ _))))

      pub copied-Holds : Holds copied xs
      copied-Holds =
          copy_of-Holds (start_of k) k.holds (memory p n) n (exact p n) room (omega arith)
