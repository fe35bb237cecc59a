-- ===== src/Pool/Registry/Laws.antt =====
-- What lookups find after pools are registered and deregistered.
use pmem.Prelude.{
  ℕ, ◌≡◌, ◌≢◌, refl, inl, inr, Option-cases, none, some, [], ◌∷◌, arith, ◌==◌, if◌then◌else◌,
}
use pmem.Prelude.Result.{ok, err, assertion_failed}
use pmem.Memory.Objects.{PersistentPool, State}
use pmem.Memory.Access.{◌>>◌}
use pmem.Memory.Pmemobj.{Place, Pmemobj}
use pmem.Pool.Registry.{
  Pools, find, erase, absent, register_pool, deregister_pool, pool_from_pointer,
}

pub find-erase :
    (h k : ℕ) (pools : Pools) → find k (erase h pools) ≡ (if h == k then none else find k pools)
unfolding find erase
find-erase h k [] = ground arith
find-erase h k ((j, pool) ∷ pools) = ground (arith, find-erase h k pools)

pub erase_absent : (h : ℕ) (pools : Pools) → find h pools ≡ none → erase h pools ≡ pools
unfolding find erase
erase_absent h [] e = refl
erase_absent h ((j, pool) ∷ pools) e = ground (arith, erase_absent h pools)

module _ (s : State) (pool : PersistentPool) where
  abbrev pub registered : State
  registered = record s { registry = (pool.handle, pool) ∷ s.registry }

  -- A second pool under a handle is refused, and the registry stays as it is.
  pub register_pool_lem : register_pool pool s ≡ (elim (find pool.handle s.registry) [
    | none ↦ (ok tt, registered)
    | some _ ↦ (err assertion_failed, s)
  ])
  unfolding register_pool
  register_pool_lem = ground arith

  pub deregister_pool_lem : deregister_pool pool s ≡ (elim (find pool.handle s.registry) [
    | none ↦ (err assertion_failed, s)
    | some _ ↦ (ok tt, record s { registry = erase pool.handle s.registry })
  ])
  unfolding deregister_pool
  deregister_pool_lem = ground arith

  pub deregister_registered :
      find pool.handle s.registry ≡ none → deregister_pool pool registered ≡ (ok tt, s)
  unfolding deregister_pool find erase
  deregister_registered e = ground (arith, erase_absent pool.handle s.registry)

  -- To register a pool and then deregister it succeeds and gives the state from before if no pool
  -- is registered under the handle; otherwise it fails its assertion, and the registry is as
  -- before.
  pub deregister-register :
      (do register_pool pool; deregister_pool pool) s
      ≡ (if absent (find pool.handle s.registry) then (ok tt, s) else (err assertion_failed, s))
  deregister-register = elim (Option-cases (find pool.handle s.registry)) [
    | inl free ↦ rw (register_pool_lem, free) (deregister_registered free)
    | inr (other, taken) ↦ rw (register_pool_lem, taken) refl
  ]

  -- After a pool with a handle that is not null, under which none is registered, has been
  -- registered, `poolFromPointer` finds it for each address for which libpmemobj gives this
  -- handle, and for any other address ends as it did before.
  pub pool_from_pointer-register :
      (lib : Pmemobj) (at : Place)
      → find pool.handle s.registry ≡ none
      → pool.handle ≢ 0
      → (do register_pool pool; pool_from_pointer lib at) s ≡ (
        if lib.pool_by_ptr at s.opened == pool.handle
            then ok pool
            else (pool_from_pointer lib at s).0,
        registered,
      )
  unfolding pool_from_pointer find
  pool_from_pointer-register lib at free nonzero =
      rw (register_pool_lem, free) (ground (arith, nonzero))
