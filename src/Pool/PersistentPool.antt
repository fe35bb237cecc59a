-- ===== src/Pool/PersistentPool.antt =====
-- `PersistentPool`: opening, creating, closing and removing pools.
pub mod Laws
use pmem.Prelude.{ℕ, Bool, true, false, not, Option, none, some, String, ◌==◌, ltb, if◌then◌else◌}
use pmem.Prelude.Result.{open_error, create_error, assertion_failed, Result, ok, err}
use pmem.Oid.{Oid, oid_null}
use pmem.Memory.Objects.{PersistentPool, State}
use pmem.Memory.Access.{M, pure, throw, assert, gets, ◌>>=◌, ◌>>◌}
use pmem.Ptr.Constructor.{AtomicConstructor, pmem_constructor}
use pmem.Memory.Pmemobj.{Pmemobj}
use pmem.Ptr.Pointer.{allocate_ctr}
use pmem.Pool.Registry.{register_pool, deregister_pool}
use pmem.Pool.Files.{Files}

stat_size : Option ℕ → M ℕ
stat_size none = throw assertion_failed
stat_size (some size) = pure size

module _ (files : Files) where
  -- The constructor that opens a pool. A failure after `pmemobj_open` leaves the pool mapped.
  unfoldable pub open_pool : String → String → M PersistentPool
  unfolding stat_size
  open_pool path name = do
    handle ← files.open_file path name
    if handle == 0 then throw open_error else (do
      st ← gets (files.stat path)
      size ← stat_size st
      let pool : PersistentPool = record {
        path = path;
        handle = handle;
        new_pool = false;
        size = size;
      }
      register_pool pool
      pure pool)

  -- The constructor that creates a pool. A size below the minimum is raised for the file; the member
  -- keeps the size that was asked for. `min_pool` is `PMEMOBJ_MIN_POOL`.
  unfoldable pub create_pool :
      (min_pool : ℕ) → String → ℕ → String → AtomicConstructor → M PersistentPool
  create_pool min_pool path size name c = do
    handle ← files.create_file path name (if ltb size min_pool then min_pool else size)
    if handle == 0 then throw create_error else (do
      files.root_construct handle c.size (pmem_constructor c)
      let pool : PersistentPool = record {
        path = path;
        handle = handle;
        new_pool = true;
        size = size;
      }
      register_pool pool
      pure pool)

  -- `close`: the pool with a null handle
  unfoldable pub close : PersistentPool → M PersistentPool
  close pool = do
    assert (not (pool.handle == 0))
    deregister_pool pool
    files.close_file pool.handle
    pure (record pool { handle = 0 })

  -- The destructor
  unfoldable pub destroy : PersistentPool → M PersistentPool
  unfolding close
  destroy pool = if pool.handle == 0 then pure pool else close pool

  -- `remove`
  unfoldable pub remove : PersistentPool → M PersistentPool
  remove pool = do closed ← close pool; files.remove_file pool.path; pure closed

  -- `uuid`: that of the pointer to the root, which the call makes if there is none
  unfoldable pub uuid : PersistentPool → M ℕ
  uuid pool = do root_elem ← files.root pool.handle 8; pure root_elem.pool_uuid_lo

  -- `getRoot<T>`, for a root of `sizeof_root` bytes
  unfoldable pub get_root : ℕ → PersistentPool → M Oid
  get_root sizeof_root pool = files.root pool.handle sizeof_root

-- `allocate<T>(x1, ...)`: the new object, through a pointer on the stack
unfoldable pub allocate : Pmemobj → PersistentPool → AtomicConstructor → M Oid
unfolding allocate_ctr
allocate lib pool c = allocate_ctr lib pool.handle oid_null c
