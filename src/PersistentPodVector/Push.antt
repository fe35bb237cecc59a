-- ===== src/PersistentPodVector/Push.antt =====
-- `push_back` of values of 8 bytes behind a pointer: first allocation, growth and push together.
use pmem.Prelude.{
  ℕ, ◌+◌, ◌*◌, ◌%◌, ◌≡◌, ◌<◌, ◌≤◌, refl, ◌⊎◌, inl, inr, true, false, some, List, [], ◌∷◌, ◌++◌,
  arith, ◌==◌, Bool-cases, if◌then◌else◌, length, word,
}
use pmem.Prelude.Result.{Error, allocation_error}
use pmem.Oid.{Oid, null, oid_eq}
use pmem.Memory.Objects.{Object, State}
use pmem.Memory.Access.{pure, ◌>>=◌}
use pmem.Memory.Ends
use pmem.Memory.Ends.{Ends, returns, throws}
use pmem.Memory.Pmemobj.{Pmemobj}
use pmem.Ptr.Location.{Location, owner, place, member}
use pmem.Ptr.Location.Laws.{set_member_self}
use pmem.PersistentVector.Standing.{Moved, get_lem}
use pmem.PersistentVector.Grow.{Refused}
use pmem.PersistentPodVector.{size, resize, first_allocation, push_back}
use pmem.PersistentPodVector.Standing.{Stored, read_now, size_now, full_now, push_now}
use pmem.PersistentPodVector.Grow.{allocate_sized, replace_resized}

module _ (lib : Pmemobj) (type_id : ℕ) (memory : Oid → ℕ → List ℕ)
    (exact : (p : Oid) (n : ℕ) → length (memory p n) ≡ n) (l : Location) (own : Object) (old : Oid)
    (has : member l own.content ≡ some old) (s : State)
    (mapped : (lib.pool_by_ptr (place l) s.opened == 0) ≡ false) where
  -- The vector behind the pointer holds `xs` in `n` slots.
  abbrev pub Vec : ℕ → List ℕ → State → Type 0
  Vec n xs u = (q : Oid) × Moved l own old q s u × Stored type_id n q xs u

  first_allocation-Ends :
      {t : State} {oid : Oid} {xs : List ℕ} (b : ℕ)
      → 0 < b
      → Moved l own old oid s t
      → ((null oid ≡ true) × (xs ≡ [])) ⊎ ((n : ℕ) × (n ≤ b) × Stored type_id n oid xs t)
      → Ends
          (λ _ u. (n : ℕ) × (n ≤ b) × Vec n xs u)
          (Refused t)
          (first_allocation lib 8 type_id memory l t)
  unfolding first_allocation
  first_allocation-Ends {t} {oid} {xs} b positive moved (inl (is_null, e)) =
      rw (read_now lib 8 type_id memory l own old has old s moved) (
        rw (is_null, e)
          (Ends.bind _
            (allocate_sized lib type_id memory exact l own old has old oid s t moved mapped 1
              (omega arith) (omega arith) is_null)
            λ u v (q, m, k).
              Ends.bind _ (size_now lib 8 type_id memory l own old has old s m k)
                λ r w (zero_size, m', k'). rw zero_size (returns (1, omega arith, (q, m', k')))))
  first_allocation-Ends {oid} b positive moved (inr (n, small, k)) =
      rw (read_now lib 8 type_id memory l own old has old s moved)
        (rw k.alive (returns (n, small, (oid, moved, k))))

  -- A refused allocation, with the vector as it was.
  abbrev Unchanged : ℕ → List ℕ → Error → State → Type 0
  Unchanged b xs e u = (e ≡ allocation_error) × ((n : ℕ) × (n ≤ b) × Vec n xs u)

  -- Twice the slots.
  grow-Ends :
      {t : State} {oid : Oid} {xs : List ℕ} {n : ℕ}
      → Moved l own old oid s t
      → Stored type_id n oid xs t
      → length xs ≡ n
      → n * 16 + 16 < word
      → Ends
          (λ _ u. Vec (n * 2) xs u)
          (Unchanged n xs)
          ((size lib 8 type_id memory l >>= λ sz. resize lib 8 type_id memory l ((sz * 2) % word))
            t)
  unfolding resize
  grow-Ends {t} {oid} {xs} {n} moved k e small =
      Ends.bind _ (size_now lib 8 type_id memory l own old has old s moved k) λ r u (is, m, k').
        let twice : (r * 2) % word ≡ n * 2 = omega arith in
        rw (twice, read_now lib 8 type_id memory l own old has old s m)
          (rw k'.alive (
            rw (get_lem lib type_id oid k'.object u k'.at k'.typed) (
              Ends.mono
                (replace_resized lib type_id memory exact l own old has old oid s u m mapped k'
                  (n * 2) (omega (arith, k.some_room)) (omega arith))
                (λ a v h. h)
                (λ e v (refused, same). (refused, rw same (n, omega arith, (oid, m, k')))))))

  -- After the growth there is room for one more value.
  room-Ends :
      {t : State} {oid : Oid} {xs : List ℕ} {n : ℕ}
      → Moved l own old oid s t
      → Stored type_id n oid xs t
      → length xs ≤ n
      → n * 16 + 16 < word
      → Ends
          (λ _ u. (m : ℕ) × (length xs < m) × (m ≤ n * 2) × Vec m xs u)
          (Unchanged n xs)
          ((if length xs == n
              then (size lib 8 type_id memory l >>= λ sz.
                  resize lib 8 type_id memory l ((sz * 2) % word))
              else pure tt)
            t)
  room-Ends {oid} {xs} {n} moved k fits small = elim (Bool-cases (length xs == n)) [
    | inl full ↦ rw full (
        Ends.mono (grow-Ends moved k (ground arith) small)
          (λ a v h. (n * 2, omega (arith, k.some_room), omega arith, h)) (λ e v h. h))
    | inr room ↦ rw room (returns (n, ground arith, omega arith, (oid, moved, k)))
  ]

  -- The vector as it was, with its first slot perhaps.
  abbrev pub Failed : ℕ → List ℕ → Error → State → Type 0
  Failed n xs e u = (e ≡ allocation_error) × ((u ≡ s) ⊎ ((m : ℕ) × (m ≤ n) × Vec m xs u))

  begin : oid_eq (owner l) old ≡ false → s.heap (owner l) ≡ some own → Moved l own old old s s
  begin apart at = record {
    keeps = record { others = λ q o e ne away. e; opened = refl; registry = refl };
    owner_at = rw (set_member_self l old own.content has) at;
    apart = apart;
    outside = λ q o e away. away;
  }

  start_cases :
      {xs : List ℕ} {n : ℕ}
      → ((null old ≡ true) × (xs ≡ [])) ⊎ Stored type_id n old xs s
      → ((null old ≡ true) × (xs ≡ [])) ⊎ ((m : ℕ) × (m ≤ n) × Stored type_id m old xs s)
  start_cases (inl h) = inl h
  start_cases {n} (inr k) = inr (n, omega arith, k)

  fits_now : {n : ℕ} {q : Oid} {xs : List ℕ} {t : State} → Stored type_id n q xs t → length xs ≤ n
  fits_now k = omega (arith, k.holds.fits, k.capacity)

  -- For values of 8 bytes and a pointer in an object of an open pool that is null (with `xs`
  -- empty and any positive `n`) or leads to data that hold the values `xs` in `n` slots, apart
  -- from that object, with `n` positive and `n * 16 + 16` below 2^64, whatever new memory holds:
  -- `push_back` ends with data behind the pointer that hold `xs` and the value in at most `2 * n`
  -- slots, and every other object in memory is as it was; or it throws an allocation error, in
  -- the state from before or with data that hold `xs` in at most `n` slots behind the pointer.
  pub push_back-Ends :
      (xs : List ℕ) (n v : ℕ)
      → s.heap (owner l) ≡ some own
      → oid_eq (owner l) old ≡ false
      → ((null old ≡ true) × (xs ≡ [])) ⊎ Stored type_id n old xs s
      → 0 < n
      → n * 16 + 16 < word
      → Ends
          (λ _ u. (m : ℕ) × (m ≤ n * 2) × Vec m (xs ++ v ∷ []) u)
          (Failed n xs)
          (push_back lib 8 type_id memory l v s)
  unfolding push_back
  push_back-Ends xs n v at apart start positive small =
      Ends.bind _
        (Ends.mono (first_allocation-Ends n positive (begin apart at) (start_cases start))
          (λ a u h. h) (λ e u (r, same). (r, inl same)))
        λ _ t (k, fits, (q, moved, held)).
          rw (read_now lib 8 type_id memory l own old has old s moved) (
            Ends.bind _ (full_now lib 8 type_id memory l own old has old s moved held)
              λ b u (is, m, held'). rw is (
                Ends.bind _
                  (Ends.mono (room-Ends m held' (fits_now held') (omega arith)) (λ a w h. h)
                    (λ e w (r, (m', at_most, h)). (r, inr (m', omega (arith, fits), h))))
                  λ _ w (k', room, twice, (q', m', held'')).
                    rw (read_now lib 8 type_id memory l own old has old s m') (
                      Ends.mono (push_now lib 8 type_id memory l own old has old s m' held'' v room)
                        (λ a x (m'', h). (k', omega (arith, fits), (q', m'', h))) (λ e x h. h))))
