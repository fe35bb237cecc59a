-- ===== src/PersistentVector/Steps.antt =====
-- What the calls that `push_back_elem` makes do to a vector behind a pointer.
use pmem.Prelude.{
  ℕ, ◌+◌, ◌*◌, ◌%◌, ◌≡◌, ◌<◌, ◌≤◌, refl, ap, ◌∙◌, ◌⊎◌, inl, inr, true, false, some, List, [], ◌∷◌,
  ◌++◌, arith, ◌==◌, Bool-cases, if◌then◌else◌, length, word, get_elem?,
}
use pmem.Prelude.Result.{Error, allocation_error, ok}
use pmem.Oid.{Oid, null}
use pmem.Vector.Data.{VectorData, Image, Method}
use pmem.Vector.Data
use pmem.Vector.Pointer
use pmem.Vector.Pointer.Holds.{Holds, get_elem?-held}
use pmem.Vector.Pointer.Check.{mended, mended-Settled, mended-size, size_lem, full_lem}
use pmem.Vector.Pointer.Push.{appended-Settled, push_back_elem_lem}
use pmem.Memory.Objects.{Object, State}
use pmem.Memory.Access.{pure, ◌>>=◌}
use pmem.Memory.Ends
use pmem.Memory.Ends.{Ends, returns, throws}
use pmem.Memory.Pmemobj.{Pmemobj}
use pmem.Ptr.Location.{Location, place, member, read}
use pmem.Ptr.Location.Laws.{pointing, read_lem, member-set_member}
use pmem.PersistentVector.{
  sizeof_data, on_data, size, resize, first_allocation, element, allocated_size,
}
use pmem.PersistentVector.Standing.{
  Stored, Moved, get_lem, on_data_lem, Moved-with_vector, Stored-with_vector,
}
use pmem.PersistentVector.Make.{slots_in-sizeof}
use pmem.PersistentVector.Grow.{Refused, allocate_sized, replace_resized}

abbrev pub start_of :
    {type_id n : ℕ} {oid : Oid} {xs : List Oid} {t : State} → Stored type_id n oid xs t → Image Oid
start_of k = record { now = k.vec; events = [] }

module _ (lib : Pmemobj) (type_id : ℕ) (l : Location) (own : Object) (q0 : Oid)
    (has : member l own.content ≡ some q0) (old : Oid) (s : State)
    (mapped : (lib.pool_by_ptr (place l) s.opened == 0) ≡ false) where
  -- The vector behind the pointer holds `xs` in `n` slots.
  abbrev pub Vec : ℕ → List Oid → State → Type 0
  Vec n xs u = (q : Oid) × Moved l own old q s u × Stored type_id n q xs u

  pub read_now : {oid : Oid} {t : State} → Moved l own old oid s t → read l t ≡ (ok oid, t)
  read_now {oid} {t} moved =
      read_lem l oid t (pointing l oid own) moved.owner_at
        (member-set_member l q0 oid own.content has)

  pub method :
      {B : Type 0} {oid : Oid} {t : State} {n : ℕ} {xs ys : List Oid} {E : Error → State → Type 0}
      (m : Method Oid B) (moved : Moved l own old oid s t) (k : Stored type_id n oid xs t) (b : B)
      (img : Image Oid)
      → m (start_of k) ≡ (ok b, img)
      → Holds img.now ys
      → img.now.allocated_size ≡ n
      → Ends
          (λ r u. (r ≡ b) × Moved l own old oid s u × Stored type_id n oid ys u)
          E
          (on_data lib type_id oid m t)
  method {oid} {t} m moved k b img e holds same =
      rw (on_data_lem lib type_id oid m k.object k.vec t k.at k.typed k.is) (
        rw e (
          returns (
            refl,
            Moved-with_vector moved k.object img.now img.events,
            Stored-with_vector k img.now img.events holds same,
          )))

  -- An image whose count is mended holds the same pointers in the same slots.
  pub size_now :
      {oid : Oid} {t : State} {n : ℕ} {xs : List Oid} {E : Error → State → Type 0}
      (moved : Moved l own old oid s t) (k : Stored type_id n oid xs t)
      → Ends
          (λ r u. (r ≡ length xs) × Moved l own old oid s u × Stored type_id n oid xs u)
          E
          (size lib type_id l t)
  unfolding size
  size_now {oid} {t} moved k = rw (read_now moved) (
      rw k.alive (
        method Pointer.size moved k _ _ (size_lem (start_of k) k.holds)
          (mended-Settled (start_of k) k.holds).holds
          (mended-size (start_of k) k.holds ∙ k.capacity)))

  pub first_allocation-Ends :
      {t : State} {oid : Oid} {xs : List Oid} (b : ℕ)
      → 0 < b
      → Moved l own old oid s t
      → ((null oid ≡ true) × (xs ≡ [])) ⊎ ((n : ℕ) × (n ≤ b) × Stored type_id n oid xs t)
      → Ends (λ _ u. (n : ℕ) × (n ≤ b) × Vec n xs u) (Refused t) (first_allocation lib type_id l t)
  unfolding first_allocation
  first_allocation-Ends {t} {oid} {xs} b positive moved (inl (is_null, e)) = rw (read_now moved) (
      rw (is_null, e)
        (Ends.bind _
          (allocate_sized lib type_id l own q0 has old oid s t moved mapped 1 sizeof_data
            slots_in-sizeof (omega arith) (omega arith) is_null)
          λ u v (q, m, k).
            Ends.bind _ (size_now m k)
              λ r w (zero_size, m', k'). rw zero_size (returns (1, omega arith, (q, m', k')))))
  first_allocation-Ends {oid} b positive moved (inr (n, small, k)) =
      rw (read_now moved) (rw k.alive (returns (n, small, (oid, moved, k))))

  -- A refused allocation, with the vector as it was.
  abbrev pub Unchanged : ℕ → List Oid → Error → State → Type 0
  Unchanged b xs e u = (e ≡ allocation_error) × ((n : ℕ) × (n ≤ b) × Vec n xs u)

  -- Twice the slots.
  grow-Ends :
      {t : State} {oid : Oid} {xs : List Oid} {n : ℕ}
      → Moved l own old oid s t
      → Stored type_id n oid xs t
      → length xs ≡ n
      → n * 32 + 16 < word
      → Ends
          (λ _ u. Vec (n * 2) xs u)
          (Unchanged n xs)
          ((size lib type_id l >>= λ sz. resize lib type_id l ((sz * 2) % word)) t)
  unfolding resize
  grow-Ends {t} {oid} {xs} {n} moved k e small = Ends.bind _ (size_now moved k) λ r u (is, m, k').
      let twice : (r * 2) % word ≡ n * 2 = omega arith in
      rw (twice, read_now m)
        (rw k'.alive (
          rw (get_lem lib type_id oid k'.object u k'.at k'.typed) (
            Ends.mono
              (replace_resized lib type_id l own q0 has old oid s u m mapped k' (n * 2)
                (omega (arith, k.some_room)) (omega arith))
              (λ a v h. h)
              (λ e v (refused, same). (refused, rw same (n, omega arith, (oid, m, k')))))))

  pub full_now :
      {oid : Oid} {t : State} {n : ℕ} {xs : List Oid} {E : Error → State → Type 0}
      (moved : Moved l own old oid s t) (k : Stored type_id n oid xs t)
      → Ends
          (λ r u. (r ≡ (length xs == n)) × Moved l own old oid s u × Stored type_id n oid xs u)
          E
          (on_data lib type_id oid Pointer.full t)
  full_now {n} {xs} moved k =
      method Pointer.full moved k (length xs == n) (mended (length xs) (start_of k))
        (full_lem (start_of k) k.holds
          ∙ ap (λ c. (ok (length xs == c), mended (length xs) (start_of k))) k.capacity)
        (mended-Settled (start_of k) k.holds).holds (mended-size (start_of k) k.holds ∙ k.capacity)

  -- After the growth there is room for one more pointer.
  pub room-Ends :
      {t : State} {oid : Oid} {xs : List Oid} {n : ℕ}
      → Moved l own old oid s t
      → Stored type_id n oid xs t
      → length xs ≤ n
      → n * 32 + 16 < word
      → Ends
          (λ _ u. (m : ℕ) × (length xs < m) × (m ≤ n * 2) × Vec m xs u)
          (Unchanged n xs)
          ((if length xs == n
              then (size lib type_id l >>= λ sz. resize lib type_id l ((sz * 2) % word))
              else pure tt)
            t)
  room-Ends {oid} {xs} {n} moved k fits small = elim (Bool-cases (length xs == n)) [
    | inl full ↦ rw full (
        Ends.mono (grow-Ends moved k (ground arith) small)
          (λ a v h. (n * 2, omega (arith, k.some_room), omega arith, h)) (λ e v h. h))
    | inr room ↦ rw room (returns (n, ground arith, omega arith, (oid, moved, k)))
  ]

  pub push_slot-Ends :
      {t : State} {oid : Oid} {xs : List Oid} {n : ℕ} {E : Error → State → Type 0} (p : Oid)
      → null p ≡ false
      → Moved l own old oid s t
      → Stored type_id n oid xs t
      → length xs < n
      → Ends
          (λ _ u. Vec n (xs ++ p ∷ []) u)
          E
          (on_data lib type_id oid (Pointer.push_back_elem p) t)
  push_slot-Ends p alive moved k room =
      Ends.mono
        (method (Pointer.push_back_elem p) moved k _ _
          (push_back_elem_lem (start_of k) k.holds p (omega (arith, k.capacity)))
          (appended-Settled (mended-Settled (start_of k) k.holds).holds p alive
            (omega (arith, mended-size (start_of k) k.holds, k.capacity))).holds
          (mended-size (start_of k) k.holds ∙ k.capacity))
        (λ r u (is, m, k'). (_, m, k')) (λ e u h. h)

  -- A slot that holds a pointer is read.
  pub element_now :
      {oid : Oid} {t : State} {n : ℕ} {xs : List Oid} {E : Error → State → Type 0}
      (moved : Moved l own old oid s t) (k : Stored type_id n oid xs t) (i : ℕ) (c : Oid)
      → get_elem? xs i ≡ some c
      → Ends
          (λ r u. (r ≡ c) × Moved l own old oid s u × Stored type_id n oid xs u)
          E
          (element lib type_id l i t)
  unfolding element Data.element
  element_now moved k i c is = rw (read_now moved) (
      method (Data.element i) moved k c (start_of k) (rw (get_elem?-held k.holds i c is) refl)
        k.holds k.capacity)

  -- The number of slots is read.
  pub allocated_now :
      {oid : Oid} {t : State} {n : ℕ} {xs : List Oid} {E : Error → State → Type 0}
      (moved : Moved l own old oid s t) (k : Stored type_id n oid xs t)
      → Ends
          (λ r u. (r ≡ n) × Moved l own old oid s u × Stored type_id n oid xs u)
          E
          (allocated_size lib type_id l t)
  unfolding allocated_size Data.allocated_size
  allocated_now {n} moved k = rw (read_now moved) (
      rw k.alive (
        method Data.allocated_size moved k n (start_of k) (ap (λ c. (ok c, start_of k)) k.capacity)
          k.holds k.capacity))
