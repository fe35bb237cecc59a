-- ===== src/Ptr/Pointer/Allocate.antt =====
-- Allocation and replacement through a pointer, for any constructor.
use pmem.Prelude.{ℕ, ◌≡◌, refl, true, false, Option, none, some, ◌==◌}
use pmem.Prelude.Result.{Error, allocation_error, Result, ok}
use pmem.Oid.{Oid, null, oid_eq, oid_eq_self}
use pmem.Memory.Objects.{Object, State}
use pmem.Memory.Access.{M, pure, throw, assert, continue, set_object, ◌>>=◌, ◌>>◌, persist}
use pmem.Memory.Ends
use pmem.Memory.Ends.{Ends, returns, throws}
use pmem.Memory.Pmemobj.{inside, Pmemobj, refused, placed, reserve, settle}
use pmem.Ptr.Constructor.{AtomicConstructor, caught, finish, build, pmem_constructor}
use pmem.Ptr.Location.{Location, owner, place, member, read, write}
use pmem.Ptr.Location.Laws.{pointing, read_lem, write_lem}
use pmem.Ptr.Pointer.{allocate_ctr, own_pool, allocate_at, replace_ctr, replace_at}

-- The state after an exception has left `make`: an `AllocationError` gives the memory back, after
-- a flush of it, and any other exception leaves the memory as it is.
abbrev pub unwind : Error → Oid → ℕ → State → State
unwind allocation_error p size t = set_object p none (persist p size t).1
unwind e p size t = t

-- What the constructor has to do wherever the object is placed.
abbrev pub Makes :
    Pmemobj
    → ℕ
    → AtomicConstructor
    → State
    → (Oid → State → Type 0)
    → (Error → State → Type 0)
    → Type 0
Makes lib pool c s P E =
    (p : Oid)
    → s.heap p ≡ none
    → null p ≡ false
    → lib.pool_by_ptr (inside p) s.opened ≡ pool
    → Ends (λ _ t. P p t) (λ e t. E e (unwind e p c.size t))
        (c.make p (reserve p c.size c.type_id s))

-- A fresh object at `p`, in a state that satisfies `P`.
abbrev pub Placed : State → (Oid → State → Type 0) → Oid → State → Type 0
Placed s P p t = (s.heap p ≡ none) × (null p ≡ false) × P p t

-- The two results of `pmemobj_alloc`.
abbrev Allocated :
    State → (Oid → State → Type 0) → (Error → State → Type 0) → Option Oid → State → Type 0
Allocated s P E none t = E allocation_error t
Allocated s P E (some p) t = Placed s P p t

module _ (lib : Pmemobj) (c : AtomicConstructor) (s : State) (P : Oid → State → Type 0)
    (E : Error → State → Type 0) where
  settled :
      (p : Oid) {r : Result (Unit {0}) × State}
      → s.heap p ≡ none
      → null p ≡ false
      → Ends (λ _ t. P p t) (λ e t. E e (unwind e p c.size t)) r
      → Ends (Allocated s P E) E (settle p (continue (caught r) (λ ret. finish ret p c.size)))
  settled p fresh alive (returns x) = returns (fresh, alive, x)
  settled p fresh alive (throws {e = allocation_error} x) = returns x
  settled p fresh alive (throws x) = throws x

  alloc-Ends :
      (pool : ℕ)
      → E allocation_error s
      → Makes lib pool c s P E
      → Ends (Allocated s P E) E (lib.alloc pool c.size c.type_id (pmem_constructor c) s)
  unfolding pmem_constructor build
  alloc-Ends pool fails makes =
      elim (lib.alloc-Allocation pool c.size c.type_id (pmem_constructor c) s) [
        | refused e ↦ rw e (returns fails)
        | placed p fresh alive lies e ↦ rw e (settled p fresh alive (makes p fresh alive lies))
      ]

  -- `allocate_ctr` of a null pointer, with a constructor that ensures `P` wherever its object is
  -- placed: it ends with the address of a new object, free before and not null, in a state with
  -- `P`; or it throws, in a state with what is known of a failure, where an `AllocationError` of
  -- the constructor has given the memory back.
  pub allocate_ctr-Ends :
      (pool : ℕ) (oid : Oid)
      → null oid ≡ true
      → E allocation_error s
      → Makes lib pool c s P E
      → Ends (Placed s P) E (allocate_ctr lib pool oid c s)
  unfolding allocate_ctr
  allocate_ctr-Ends pool oid is_null fails makes =
      rw is_null (Ends.bind _ (alloc-Ends pool fails makes) after)
    where
      after :
          (o : Option Oid) (t : State)
          → Allocated s P E o t
          → Ends
              (Placed s P)
              E
              (elim o as (λ _. M Oid) [ none ↦ throw allocation_error | some p ↦ pure p ] t)
      after none t h = throws h
      after (some p) t h = returns h

module _ (lib : Pmemobj) (l : Location) (s : State) {own : Object} {oid : Oid}
    (at : s.heap (owner l) ≡ some own) (is : member l own.content ≡ some oid)
    (mapped : (lib.pool_by_ptr (place l) s.opened == 0) ≡ false) (c : AtomicConstructor)
    (P : Oid → State → Type 0) (E : Error → State → Type 0) where
  own_pool_lem : own_pool lib (place l) s ≡ (ok (lib.pool_by_ptr (place l) s.opened), s)
  unfolding own_pool
  own_pool_lem = rw mapped

  abbrev pub Published : Unit {0} → State → Type 0
  Published _ t =
      (p : Oid) × (u : State) × Placed s P p u
      × (t ≡ set_object (owner l) (some (pointing l p own)) u)

  -- `allocate_ctr` of a null pointer in an object of an open pool, with a constructor that
  -- ensures `P` and leaves the pointer's object alone: it ends with a new object at a free
  -- address that satisfies `P`, and then that address written to the pointer; or it throws, in a
  -- state with what is known of a failure.
  pub allocate_at-Ends :
      null oid ≡ true
      → E allocation_error s
      → Makes lib
          (lib.pool_by_ptr (place l) s.opened)
          c
          s
          (λ p t. P p t × (t.heap (owner l) ≡ some own))
          E
      → Ends Published E (allocate_at lib l c s)
  unfolding allocate_at
  allocate_at-Ends is_null fails makes =
      rw (own_pool_lem, ◌>>=◌)
        (rw (read_lem l oid s own at is) (
          Ends.bind _ (allocate_ctr-Ends lib c s _ E _ oid is_null fails makes)
            λ p t (fresh, alive, (made, kept)).
              rw (write_lem l oid t own kept is p) (returns (p, t, (fresh, alive, made), refl))))

  abbrev pub Replaced : Unit {0} → State → Type 0
  Replaced _ t =
      (p : Oid) × (u : State) × Placed s P p u
      × (t ≡ set_object oid none (set_object (owner l) (some (pointing l p own)) u))

  -- `replace_ctr` of a pointer in an object of an open pool that is not null, with a constructor
  -- that ensures `P` and leaves the pointer's object alone: it ends with a new object at a free
  -- address that satisfies `P`, after which that address was written to the pointer and then the
  -- old object was freed; or it throws, in a state with what is known of a failure.
  pub replace_at-Ends :
      null oid ≡ false
      → E allocation_error s
      → ((t : State) → E allocation_error t → t.heap (owner l) ≡ some own)
      → Makes lib
          (lib.pool_by_ptr (place l) s.opened)
          c
          s
          (λ p t. P p t × (t.heap (owner l) ≡ some own))
          E
      → Ends Replaced E (replace_at lib l c s)
  unfolding replace_at replace_ctr
  replace_at-Ends alive fails keeps makes =
      rw (own_pool_lem, ◌>>=◌)
        (rw (read_lem l oid s own at is)
          (rw alive (Ends.bind _ (alloc-Ends lib c s _ E _ fails makes) after)))
    where
      after :
          (o : Option Oid) (t : State)
          → Allocated s (λ p t. P p t × (t.heap (owner l) ≡ some own)) E o t
          → Ends Replaced E (
              elim o as (λ _. M (Unit {0})) [
                | none ↦ (do q ← read l; assert (oid_eq q oid); throw allocation_error)
                | some p ↦ write l p >> lib.free oid
              ]
                t)
      after none t h = rw (read_lem l oid t own (keeps t h) is) (rw (oid_eq_self oid) (throws h))
      after (some p) t (fresh, good, (made, kept)) = rw (write_lem l oid t own kept is p) (
          rw (lib.free_lem oid (set_object (owner l) (some (pointing l p own)) t))
            (returns (p, t, (fresh, good, made), refl)))
