-- ===== src/PersistentPodVector/Grow.antt =====
-- The first allocation and the growth of a vector of values of 8 bytes.
use pmem.Prelude.{
  ℕ, ◌+◌, ◌*◌, ◌≡◌, ◌<◌, refl, ap, ◌∙◌, false, true, none, some, List, [], arith, ◌==◌, length,
  word,
}
use pmem.Oid.{Oid, null, oid_eq}
use pmem.Memory.Objects.{Object, State}
use pmem.Memory.Access.{set_object}
use pmem.Memory.Ends
use pmem.Memory.Ends.{Ends, returns, throws}
use pmem.Memory.Pmemobj.{Pmemobj}
use pmem.Ptr.Location.{Location, owner, place, member}
use pmem.Ptr.Location.Laws.{pointing, member-set_member}
use pmem.Ptr.Pointer.{allocate_at, replace_at}
use pmem.Ptr.Pointer.Allocate.{allocate_at-Ends, replace_at-Ends}
use pmem.PersistentVector.Standing.{
  update_self, update_ne, oid_eq_comm, ne_of_free, Moved, Moved-to,
}
use pmem.PersistentVector.Grow.{Refused}
use pmem.PersistentPodVector.{sized, resized}
use pmem.PersistentPodVector.Standing.{Stored}
use pmem.PersistentPodVector.Make.{
  new_data, new_data-Holds, data_object, built, sized-make, copied, rebuilt, resized-make,
  copied-Holds,
}

module _ (lib : Pmemobj) (type_id : ℕ) (memory : Oid → ℕ → List ℕ)
    (exact : (p : Oid) (n : ℕ) → length (memory p n) ≡ n) (l : Location) (own : Object) (q0 : Oid)
    (has : member l own.content ≡ some q0) (old oid : Oid) (s t : State)
    (moved : Moved l own old oid s t)
    (mapped : (lib.pool_by_ptr (place l) s.opened == 0) ≡ false) where
  abbrev now : Object
  now = pointing l oid own

  has_now : member l now.content ≡ some oid
  has_now = member-set_member l q0 oid own.content has

  mapped_now : (lib.pool_by_ptr (place l) t.opened == 0) ≡ false
  mapped_now = rw moved.opened mapped

  -- The state once new data at `p` are published.
  abbrev published : Oid → State → State
  published p w = set_object (owner l) (some (pointing l p now)) w

  ne_owner : (p : Oid) → t.heap p ≡ none → oid_eq (owner l) p ≡ false
  ne_owner p free = ne_of_free t.heap p (owner l) _ free moved.owner_at

  -- The allocation of no values.
  pub allocate_sized :
      (n : ℕ)
      → 0 < n
      → n * 8 + 16 < word
      → null oid ≡ true
      → Ends
          (λ _ u. (q : Oid) × Moved l own old q s u × Stored type_id n q [] u)
          (Refused t)
          (allocate_at lib l (sized 8 type_id memory n) t)
  allocate_sized n pos small is_null =
      Ends.mono
        (allocate_at-Ends lib l t moved.owner_at has_now mapped_now (sized 8 type_id memory n)
          (λ p u. u ≡ built type_id memory exact p n (new_data type_id memory exact p n) t)
          (Refused t) is_null (refl, refl)
          (λ p free alive lies. rw (sized-make type_id memory exact n p t pos small) (
            returns (
              refl,
              update_ne _ p (owner l) _ (ne_owner p free)
                  ∙ update_ne _ p (owner l) _ (ne_owner p free)
                  ∙ moved.owner_at,
            ))))
        (λ u v (p, w, (free, alive, made), e).
          rw (e, made)
            (
              p,
              Moved-to moved p free _ (update_self _ _ _)
                  (λ q ne away apart.
                    update_ne _ (owner l) q _ apart ∙ update_ne _ p q _ ne ∙ update_ne _ p q _ ne)
                  refl refl,
              record {
                object = data_object type_id memory exact n (new_data type_id memory exact p n);
                vec = new_data type_id memory exact p n;
                at =
                    update_ne _ (owner l) p _ (oid_eq_comm (owner l) p (ne_owner p free))
                    ∙ update_self _ _ _;
                typed = refl;
                is = refl;
                holds = new_data-Holds type_id memory exact p n (omega arith);
                capacity = refl;
                some_room = pos;
                alive = alive;
              },
            ))
        (λ e u h. h)

  module _ {n0 : ℕ} {xs : List ℕ} (k : Stored type_id n0 oid xs t) (n : ℕ) (room : length xs < n)
      (small : n * 8 + 16 < word) where
    abbrev copied_at : Oid → State
    copied_at p = set_object oid none (published p (rebuilt type_id memory exact k n p))

    resized_Moved : (p : Oid) → t.heap p ≡ none → Moved l own old p s (copied_at p)
    resized_Moved p free =
        Moved-to moved p free _ (update_ne _ oid (owner l) _ moved.apart ∙ update_self _ _ _)
          (λ q ne away apart.
            update_ne _ oid q _ away
            ∙ update_ne _ (owner l) q _ apart
            ∙ update_ne _ p q _ ne
            ∙ update_ne _ oid q _ away
            ∙ update_ne _ p q _ ne)
          refl refl

    resized_Stored :
        (p : Oid) → t.heap p ≡ none → null p ≡ false → Stored type_id n p xs (copied_at p)
    resized_Stored p free alive = record {
      object = data_object type_id memory exact n (copied type_id memory exact k n p);
      vec = copied type_id memory exact k n p;
      at =
          update_ne _ oid p _ (oid_eq_comm oid p (ne_of_free t.heap p oid _ free k.at))
          ∙ update_ne _ (owner l) p _ (oid_eq_comm (owner l) p (ne_owner p free))
          ∙ update_self _ _ _;
      typed = refl;
      is = refl;
      holds = copied-Holds type_id memory exact k n p free room small;
      some_room = omega arith;
      alive = alive;
      capacity = refl;
    }

    -- The replacement by a larger copy.
    pub replace_resized :
        Ends
          (λ _ u. (q : Oid) × Moved l own old q s u × Stored type_id n q xs u)
          (Refused t)
          (replace_at lib l (resized 8 type_id memory oid n) t)
    replace_resized =
        Ends.mono
          (replace_at-Ends lib l t moved.owner_at has_now mapped_now
            (resized 8 type_id memory oid n) (λ p u. u ≡ rebuilt type_id memory exact k n p)
            (Refused t) k.alive (refl, refl)
            (λ u h. ap (λ (w : State). w.heap (owner l)) h.1 ∙ moved.owner_at)
            (λ p free alive lies. rw (resized-make type_id memory exact k n p free room small) (
              returns (
                refl,
                update_ne _ p (owner l) _ (ne_owner p free)
                    ∙ update_ne _ oid (owner l) _ moved.apart
                    ∙ update_ne _ p (owner l) _ (ne_owner p free)
                    ∙ moved.owner_at,
              ))))
          (λ u v (p, w, (free, alive, made), e).
            rw (e, made) (p, resized_Moved p free, resized_Stored p free alive))
          (λ e u h. h)
