-- ===== src/PersistentVector/Push.antt =====
-- `push_back_elem` of a vector behind a pointer: first allocation, growth and push together.
use pmem.Prelude.{
  ℕ, ◌+◌, ◌*◌, ◌≡◌, ◌<◌, ◌≤◌, refl, ◌⊎◌, inl, inr, true, false, some, List, [], ◌∷◌, ◌++◌, arith,
  ◌==◌, length, word,
}
use pmem.Prelude.Result.{Error, allocation_error}
use pmem.Oid.{Oid, null, oid_eq}
use pmem.Memory.Objects.{Object, State}
use pmem.Memory.Ends
use pmem.Memory.Ends.{Ends, returns, throws}
use pmem.Memory.Pmemobj.{Pmemobj}
use pmem.Ptr.Location.{Location, owner, place, member}
use pmem.Ptr.Location.Laws.{set_member_self}
use pmem.PersistentVector.{push_back_elem}
use pmem.PersistentVector.Standing.{Stored, Moved}
use pmem.PersistentVector.Steps.{
  Vec, read_now, first_allocation-Ends, full_now, room-Ends, push_slot-Ends,
}

pub fits_now :
    {type_id n : ℕ} {oid : Oid} {xs : List Oid} {t : State}
    → Stored type_id n oid xs t
    → length xs ≤ n
fits_now k = omega (arith, k.holds.fits, k.capacity)

module _ (lib : Pmemobj) (type_id : ℕ) (l : Location) (own : Object) (oid : Oid) (s : State)
    (at : s.heap (owner l) ≡ some own) (has : member l own.content ≡ some oid)
    (apart : oid_eq (owner l) oid ≡ false)
    (mapped : (lib.pool_by_ptr (place l) s.opened == 0) ≡ false) where
  pub begin : Moved l own oid oid s s
  begin = record {
    keeps = record { others = λ q o e ne away. e; opened = refl; registry = refl };
    owner_at = rw (set_member_self l oid own.content has) at;
    apart = apart;
    outside = λ q o e away. away;
  }

  start_cases :
      {xs : List Oid} {n : ℕ}
      → ((null oid ≡ true) × (xs ≡ [])) ⊎ Stored type_id n oid xs s
      → ((null oid ≡ true) × (xs ≡ [])) ⊎ ((m : ℕ) × (m ≤ n) × Stored type_id m oid xs s)
  start_cases (inl h) = inl h
  start_cases {n} (inr k) = inr (n, omega arith, k)

  -- The vector as it was, with its first slot perhaps.
  abbrev pub Failed : ℕ → List Oid → Error → State → Type 0
  Failed n xs e u =
      (e ≡ allocation_error)
      × ((u ≡ s) ⊎ ((m : ℕ) × (m ≤ n) × Vec lib type_id l own oid has oid s mapped m xs u))

  -- For a pointer in an object of an open pool that is null (with `xs` empty and any positive
  -- `n`) or leads to data that hold `xs` in `n` slots, apart from that object, and an element
  -- that is not null, with `n` positive and `n * 32 + 16` below 2^64: `push_back_elem` ends with
  -- data behind the pointer that hold `xs` and the element in at most `2 * n` slots, and every
  -- other object in memory is as it was; or it throws an allocation error, in the state from
  -- before or with data that hold `xs` in at most `n` slots behind the pointer.
  pub push_back_elem-Ends :
      (xs : List Oid) (n : ℕ) (p : Oid)
      → ((null oid ≡ true) × (xs ≡ [])) ⊎ Stored type_id n oid xs s
      → null p ≡ false
      → 0 < n
      → n * 32 + 16 < word
      → Ends
          (λ _ u.
            (m : ℕ) × (m ≤ n * 2) × Vec lib type_id l own oid has oid s mapped m (xs ++ p ∷ []) u)
          (Failed n xs)
          (push_back_elem lib type_id l p s)
  unfolding push_back_elem
  push_back_elem-Ends xs n p start alive positive small =
      Ends.bind _
        (Ends.mono
          (first_allocation-Ends lib type_id l own oid has oid s mapped n positive begin
            (start_cases start))
          (λ a u h. h) (λ e u (r, same). (r, inl same)))
        λ _ t (k, fits, (q, moved, v)). rw (read_now lib type_id l own oid has oid s mapped moved) (
          Ends.bind _ (full_now lib type_id l own oid has oid s mapped moved v) λ b u (is, m, v').
            rw is (
              Ends.bind _
                (Ends.mono
                  (room-Ends lib type_id l own oid has oid s mapped m v' (fits_now v')
                    (omega arith))
                  (λ a w h. h) (λ e w (r, (m', at_most, h)). (r, inr (m', omega (arith, fits), h))))
                λ _ w (k', room, twice, (q', m', v'')).
                  rw (read_now lib type_id l own oid has oid s mapped m') (
                    Ends.mono
                      (push_slot-Ends lib type_id l own oid has oid s mapped p alive m' v'' room)
                      (λ a x h. (k', omega (arith, fits), h)) (λ e x h. h))))
