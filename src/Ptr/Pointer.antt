-- ===== src/Ptr/Pointer.antt =====
-- `PersistentPtr<T>` and `PersistentPtrBase` (src/pmem/PersistentPtr.h, .cc). A pointer in a
-- persistent object is a location; one on the stack is a value that a call takes and returns.
pub mod Allocate
use pmem.Prelude.{ℕ, Bool, true, false, not, Option, none, some, ◌==◌, if◌then◌else◌}
use pmem.Prelude.Result.{serious_bug, allocation_error}
use pmem.Oid.{Oid, oid_null, null, oid_eq}
use pmem.Memory.Objects.{Object, State}
use pmem.Memory.Access.{M, pure, throw, assert, gets, load, persist, ◌>>=◌, ◌>>◌}
use pmem.Memory.Pmemobj.{Place, Pmemobj}
use pmem.Ptr.Constructor.{AtomicConstructor, pmem_constructor, passing, validate_type_id}
use pmem.Ptr.Location.{Location, owner, place, read, write}

module _ (lib : Pmemobj) where
  -- `allocate_ctr(pool, constructor)` on a pointer whose value is `oid`: its new value
  unfoldable pub allocate_ctr : ℕ → Oid → AtomicConstructor → M Oid
  unfolding pmem_constructor
  allocate_ctr pool oid c = do
    assert (null oid)
    r ← lib.alloc pool c.size c.type_id (pmem_constructor c)
    elim r [ none ↦ throw allocation_error | some p ↦ pure p ]

  -- `replace_ctr(pool, constructor)`: the old object is freed once the new one is in place.
  unfoldable pub replace_ctr : ℕ → Location → AtomicConstructor → M (Unit {0})
  unfolding pmem_constructor
  replace_ctr pool l c = do
    oid_tmp ← read l
    assert (not (null oid_tmp))
    r ← lib.alloc pool c.size c.type_id (pmem_constructor c)
    elim r [
      | none ↦ (do oid ← read l; assert (oid_eq oid oid_tmp); throw allocation_error)
      | some p ↦ (do write l p; lib.free oid_tmp)
    ]

  -- The pool that a pointer in persistent memory lies in, or the exception.
  unfoldable pub own_pool : Place → M ℕ
  own_pool at = do
    pool ← gets (λ s. lib.pool_by_ptr at s.opened)
    if pool == 0 then throw serious_bug else pure pool

  -- `allocate_ctr(constructor)`
  unfoldable pub allocate_at : Location → AtomicConstructor → M (Unit {0})
  allocate_at l c = do
    pool ← own_pool (place l)
    oid ← read l
    p ← allocate_ctr pool oid c
    write l p

  -- `replace_ctr(constructor)`
  unfoldable pub replace_at : Location → AtomicConstructor → M (Unit {0})
  replace_at l c = do pool ← own_pool (place l); replace_ctr pool l c

  -- `allocate(x1, ...)` and `replace(x1, ...)`
  unfoldable pub allocate : Location → (sizeof type_id : ℕ) → (Oid → M (Unit {0})) → M (Unit {0})
  unfolding allocate_at passing
  allocate l sizeof type_id make = allocate_at l (passing sizeof type_id make)

  unfoldable pub replace : Location → (sizeof type_id : ℕ) → (Oid → M (Unit {0})) → M (Unit {0})
  unfolding replace_at passing
  replace l sizeof type_id make = replace_at l (passing sizeof type_id make)

  -- `free()`: libpmemobj sets the pointer to null with the release.
  unfoldable pub free_at : Location → M (Unit {0})
  free_at l = do oid ← read l; lib.free oid; write l oid_null

  -- `nullify()`
  unfoldable pub nullify : Location → M (Unit {0})
  nullify l = write l oid_null

  -- `setPersist(ptr)`: the pointer is set and flushed, 16 bytes of its owner.
  unfoldable pub set_persist : Location → Oid → M (Unit {0})
  set_persist l q = do write l q; persist (owner l) 16

  -- `valid()`
  unfoldable pub valid : ℕ → Oid → State → Bool
  valid type_id oid s = validate_type_id type_id (lib.type_num oid s)

  -- `get()`, `operator*`, `operator->`: the object, once its type number is checked
  unfoldable pub get : ℕ → Oid → M Object
  unfolding load valid
  get type_id oid = do ok_type ← gets (valid type_id oid); assert ok_type; load oid

  -- `as<S>()`: the test is of this pointer's own type, not of `S`.
  unfoldable pub cast : ℕ → Oid → M Oid
  unfolding valid
  cast type_id oid = do
    ok_type ← gets (valid type_id oid)
    if ok_type then pure oid else throw serious_bug
