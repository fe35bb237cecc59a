-- ===== src/PersistentVector/Grow.antt =====
-- The first allocation and the growth of a vector.
use pmem.Prelude.{
  ℕ, ◌+◌, ◌*◌, ◌≡◌, ◌<◌, refl, ap, ◌∙◌, true, false, none, some, List, [], arith, ◌==◌, length,
  word,
}
use pmem.Prelude.Result.{Error, allocation_error}
use pmem.Oid.{Oid, null, oid_eq}
use pmem.Vector.Pointer.Construct.{data_of, data_of-Settled}
use pmem.Memory.Objects.{Object, State}
use pmem.Memory.Access.{set_object}
use pmem.Memory.Ends
use pmem.Memory.Ends.{Ends, returns, throws}
use pmem.Memory.Pmemobj.{Pmemobj}
use pmem.Ptr.Location.{Location, owner, place, member}
use pmem.Ptr.Location.Laws.{pointing, member-set_member}
use pmem.Ptr.Pointer.{allocate_at, replace_at}
use pmem.Ptr.Pointer.Allocate.{allocate_at-Ends, replace_at-Ends}
use pmem.PersistentVector.{data_size, slots_in, sized, resized}
use pmem.PersistentVector.Standing.{update_self, update_ne, oid_eq_comm, Stored, Moved}
use pmem.PersistentVector.Standing.{ne_of_free, Moved-to}
use pmem.PersistentVector.Make.{
  built, rebuilt, built_ne, rebuilt_ne, sized-make, resized-make, data_object,
}

-- Only a refused allocation makes these calls fail, and then nothing has changed.
abbrev pub Refused : State → Error → State → Type 0
Refused s e t = (e ≡ allocation_error) × (t ≡ s)

module _ (lib : Pmemobj) (type_id : ℕ) (l : Location) (own : Object) (q0 : Oid)
    (has : member l own.content ≡ some q0) (old oid : Oid) (s t : State)
    (moved : Moved l own old oid s t)
    (mapped : (lib.pool_by_ptr (place l) s.opened == 0) ≡ false) where
  abbrev now : Object
  now = pointing l oid own

  has_now : member l now.content ≡ some oid
  has_now = member-set_member l q0 oid own.content has

  mapped_now : (lib.pool_by_ptr (place l) t.opened == 0) ≡ false
  mapped_now = rw moved.opened mapped

  -- What a call ensures that may move the pointer.
  abbrev pub Ensures : (Oid → State → Type 0) → State → Type 0
  Ensures P u = (q : Oid) × Moved l own old q s u × P q u

  -- The state once new data at `p` are published.
  abbrev published : Oid → State → State
  published p w = set_object (owner l) (some (pointing l p now)) w

  ne_owner : (p : Oid) → t.heap p ≡ none → oid_eq (owner l) p ≡ false
  ne_owner p free = ne_of_free t.heap p (owner l) _ free moved.owner_at

  sized_Moved :
      (n bytes : ℕ) (p : Oid)
      → t.heap p ≡ none
      → Moved l own old p s (published p (built p bytes type_id (data_of [] n) t))
  sized_Moved n bytes p free =
      Moved-to moved p free _ (update_self _ _ _)
        (λ q ne away apart. update_ne _ (owner l) q _ apart ∙ built_ne p bytes type_id _ t q ne)
        refl refl

  sized_Stored :
      (n bytes : ℕ) (p : Oid)
      → t.heap p ≡ none
      → null p ≡ false
      → 0 < n
      → n < word
      → Stored type_id n p [] (published p (built p bytes type_id (data_of [] n) t))
  sized_Stored n bytes p free alive pos small = record {
    object = data_object type_id bytes (data_of [] n);
    vec = data_of [] n;
    at = update_ne _ (owner l) p _ (oid_eq_comm (owner l) p (ne_owner p free)) ∙ update_self _ _ _;
    typed = refl;
    is = refl;
    holds = (data_of-Settled [] n tt (omega arith) small).holds;
    some_room = pos;
    alive = alive;
    capacity = refl;
  }

  -- The allocation of an empty vector.
  pub allocate_sized :
      (n bytes : ℕ)
      → slots_in bytes ≡ n
      → 0 < n
      → n < word
      → null oid ≡ true
      → Ends
          (λ _ u. Ensures (λ q u. Stored type_id n q [] u) u)
          (Refused t)
          (allocate_at lib l (sized type_id bytes n) t)
  allocate_sized n bytes exact pos small is_null =
      Ends.mono
        (allocate_at-Ends lib l t moved.owner_at has_now mapped_now (sized type_id bytes n)
          (λ p u. u ≡ built p bytes type_id (data_of [] n) t) (Refused t) is_null (refl, refl)
          (λ p free alive lies. rw (sized-make type_id bytes n p t exact) (
            returns
              (refl, built_ne p bytes type_id _ t (owner l) (ne_owner p free) ∙ moved.owner_at))))
        (λ u v (p, w, (free, alive, made), e).
          rw (e, made) (p, sized_Moved n bytes p free, sized_Stored n bytes p free alive pos small))
        (λ e u h. h)

  module _ {xs : List Oid} {n0 : ℕ} (k : Stored type_id n0 oid xs t) (n : ℕ) (room : length xs < n)
      (small : n * 16 + 16 < word) where
    abbrev copied_at : Oid → State
    copied_at p = set_object oid none (published p (rebuilt p n type_id xs oid k.object k.vec t))

    resized_Moved : (p : Oid) → t.heap p ≡ none → Moved l own old p s (copied_at p)
    resized_Moved p free =
        Moved-to moved p free _ (update_ne _ oid (owner l) _ moved.apart ∙ update_self _ _ _)
          (λ q ne away apart.
            update_ne _ oid q _ away
            ∙ update_ne _ (owner l) q _ apart
            ∙ rebuilt_ne p n type_id xs oid k.object k.vec t q ne away)
          refl refl

    resized_Stored :
        (p : Oid) → t.heap p ≡ none → null p ≡ false → Stored type_id n p xs (copied_at p)
    resized_Stored p free alive = record {
      object = data_object type_id (data_size n) (data_of xs n);
      vec = data_of xs n;
      at =
          update_ne _ oid p _ (oid_eq_comm oid p (ne_of_free t.heap p oid _ free k.at))
          ∙ update_ne _ (owner l) p _ (oid_eq_comm (owner l) p (ne_owner p free))
          ∙ update_self _ _ _;
      typed = refl;
      is = refl;
      holds = (data_of-Settled xs n k.holds.live (omega arith) (omega arith)).holds;
      some_room = omega arith;
      alive = alive;
      capacity = refl;
    }

    -- The replacement by a larger copy.
    pub replace_resized :
        Ends
          (λ _ u. Ensures (λ q u. Stored type_id n q xs u) u)
          (Refused t)
          (replace_at lib l (resized type_id oid n) t)
    replace_resized =
        Ends.mono
          (replace_at-Ends lib l t moved.owner_at has_now mapped_now (resized type_id oid n)
            (λ p u. u ≡ rebuilt p n type_id xs oid k.object k.vec t) (Refused t) k.alive
            (refl, refl) (λ u h. ap (λ (w : State). w.heap (owner l)) h.1 ∙ moved.owner_at)
            (λ p free alive lies.
              rw (resized-make type_id n oid k.object k.vec p t free k.at k.is k.holds room small) (
                returns (
                  refl,
                  rebuilt_ne p n type_id xs oid k.object k.vec t (owner l) (ne_owner p free)
                        moved.apart
                      ∙ moved.owner_at,
                ))))
          (λ u v (p, w, (free, alive, made), e).
            rw (e, made) (p, resized_Moved p free, resized_Stored p free alive))
          (λ e u h. h)
