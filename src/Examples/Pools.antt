-- ===== src/Examples/Pools.antt =====
-- Pools at concrete inputs.
use pmem.Prelude.{if◌then◌else◌, ◌≡◌, refl, ◌⊎◌, false, none, some, [], ◌∷◌, arith}
use pmem.Prelude.Result.{ok, err, assertion_failed, open_error}
use pmem.Memory.Objects.{PersistentPool, State}
use pmem.Memory.Access.{◌>>◌}
use pmem.Memory.Ends.{Ends}
use pmem.Memory.Pmemobj.{inside}
use pmem.Pool.Registry.{find, absent, register_pool, deregister_pool, pool_from_pointer}
use pmem.Pool.Registry.Laws.{
  registered, register_pool_lem, deregister-register, pool_from_pointer-register,
}
use pmem.Pool.PersistentPool.{open_pool, close}
use pmem.Pool.PersistentPool.Laws.{IsValid, open_pool-Ends, close-IsValid}
use pmem.Examples.Library.{lib, files, empty_state}

abbrev pool : PersistentPool
pool = record { path = "tree.pool"; handle = 3; new_pool = false; size = 4096 }

abbrev other_pool : PersistentPool
other_pool = record { path = "other.pool"; handle = 4; new_pool = false; size = 4096 }

empty_state-IsValid : IsValid empty_state
unfolding find
empty_state-IsValid = record {
  own_handle = λ h p e. absurd (cc e);
  nonzero = λ h p e. absurd (cc e);
  is_mapped = λ h p e. absurd (cc e);
}

abbrev open_state : State
open_state = record empty_state { opened = 3 ∷ []; registry = (3, pool) ∷ [] }

open_state-IsValid : IsValid open_state
unfolding find
open_state-IsValid = record {
  own_handle = λ h p e. ground arith;
  nonzero = λ h p e. ground arith;
  is_mapped = λ h p e. ground arith;
}

find-pool : find 3 open_state.registry ≡ some pool
unfolding find
find-pool = refl

register_pool_example : register_pool pool empty_state ≡ (ok tt, registered empty_state pool)
unfolding find
register_pool_example = register_pool_lem empty_state pool

deregister_example :
    (do register_pool pool; deregister_pool pool) empty_state
    ≡ (if absent (find 3 []) then (ok tt, empty_state) else (err assertion_failed, empty_state))
deregister_example = deregister-register empty_state pool

-- A second pool, which other addresses are in.
abbrev two_pools : State
two_pools = record empty_state { opened = 3 ∷ 4 ∷ []; registry = (4, other_pool) ∷ [] }

pool_from_pointer_example :
    (do register_pool pool; pool_from_pointer lib (inside (record { pool_uuid_lo = 7; off = 64 })))
      two_pools
    ≡ (ok pool, registered two_pools pool)
unfolding find
pool_from_pointer_example =
    pool_from_pointer-register two_pools pool lib (inside (record { pool_uuid_lo = 7; off = 64 }))
      refl (λ e. omega (arith, e))

open_pool_example :
    Ends
      (λ p t.
        IsValid t
        × (find p.handle t.registry ≡ some p)
        × (p.new_pool ≡ false)
        × (close files p t ≡ (ok (record p { handle = 0 }), empty_state)))
      (λ e t. ((e ≡ open_error) × (t ≡ empty_state)) ⊎ ((e ≡ assertion_failed) × (t.registry ≡ [])))
      (open_pool files "tree.pool" "tree-pool" empty_state)
open_pool_example = open_pool-Ends files empty_state-IsValid "tree.pool" "tree-pool"

close_example :
    Ends
      (λ closed t. IsValid t × (closed.handle ≡ 0) × (find 3 t.registry ≡ none))
      (λ e t. ⊥)
      (close files pool open_state)
close_example = close-IsValid files open_state-IsValid pool find-pool
