-- ===== src/Pool/Registry.antt =====
-- `PoolRegistry`: a map from handles to pools. Each operation holds the registry's mutex, so the
-- operations run one after another.
pub mod Laws
use pmem.Prelude.{ℕ, Bool, true, false, not, Option, none, some, List, [], ◌∷◌, ◌==◌, if◌then◌else◌}
use pmem.Prelude.Result.{assertion_failed, serious_bug, Result, ok, err}
use pmem.Memory.Objects.{PersistentPool, State}
use pmem.Memory.Access.{M, pure, throw, assert, gets, ◌>>=◌, ◌>>◌}
use pmem.Memory.Pmemobj.{Place, Pmemobj}

-- `pools_`
abbrev pub Pools : Type 0
Pools = List (ℕ × PersistentPool)

-- `pools_.find(handle)`, with `none` for `end()`
unfoldable pub find : ℕ → Pools → Option PersistentPool
find handle [] = none
find handle ((h, pool) ∷ pools) = if h == handle then some pool else find handle pools

-- `pools_.erase(handle)`
unfoldable pub erase : ℕ → Pools → Pools
erase handle [] = []
erase handle ((h, pool) ∷ pools) =
    let rest = erase handle pools in if h == handle then rest else (h, pool) ∷ rest

abbrev pub absent : Option PersistentPool → Bool
absent none = true
absent (some _) = false

abbrev set_pools : Pools → M (Unit {0})
set_pools pools s = (ok tt, record s { registry = pools })

-- `registerPool`
unfoldable pub register_pool : PersistentPool → M (Unit {0})
register_pool pool = do
  pools ← gets (λ s. s.registry)
  assert (absent (find pool.handle pools))
  set_pools ((pool.handle, pool) ∷ pools)

-- `deregisterPool`
unfoldable pub deregister_pool : PersistentPool → M (Unit {0})
deregister_pool pool = do
  pools ← gets (λ s. s.registry)
  assert (not (absent (find pool.handle pools)))
  set_pools (erase pool.handle pools)

found : Option PersistentPool → M PersistentPool
found none = throw assertion_failed
found (some pool) = pure pool

-- `poolFromPointer`
unfoldable pub pool_from_pointer : Pmemobj → Place → M PersistentPool
unfolding found
pool_from_pointer lib at = do
  handle ← gets (λ s. lib.pool_by_ptr at s.opened)
  if handle == 0
      then throw serious_bug
      else (do pools ← gets (λ s. s.registry); found (find handle pools))
