-- ===== src/Ptr/Constructor/Flush.antt =====
-- Which constructions are flushed.
use pmem.Prelude.{ℕ, ◌≡◌, refl, [], ◌∷◌, ◌++◌}
use pmem.Prelude.Result.{
  assertion_failed, out_of_range, serious_bug, allocation_error, user_error, leaf_exists,
  open_error, create_error, fault, out_of_fuel, Result, ok, err,
}
use pmem.Oid.{Oid}
use pmem.Memory.Objects.{State}
use pmem.Memory.Access.{continue}
use pmem.Ptr.Constructor.{AtomicConstructor, caught, finish, build, pmem_constructor}

-- The callback's result, and the flushes that it adds to those of `make`.
abbrev pub Reports : Oid → ℕ → Result (Unit {0}) × State → Result ℕ × State → Type 0
Reports obj size (ok u, t) r = r ≡ (ok 0, t)
Reports obj size (err allocation_error, t) r =
    r ≡ (ok 1, record t { flushes = t.flushes ++ record { object = obj; bytes = size } ∷ [] })
Reports obj size (err e, t) r = r ≡ (err e, t)

reports :
    (obj : Oid) (size : ℕ) (r : Result (Unit {0}) × State)
    → Reports obj size r (continue (caught r) (λ ret. finish ret obj size))
reports obj size (ok u, t) = refl
reports obj size (err allocation_error, t) = refl
reports obj size (err assertion_failed, t) = refl
reports obj size (err out_of_range, t) = refl
reports obj size (err serious_bug, t) = refl
reports obj size (err user_error, t) = refl
reports obj size (err leaf_exists, t) = refl
reports obj size (err open_error, t) = refl
reports obj size (err create_error, t) = refl
reports obj size (err fault, t) = refl
reports obj size (err out_of_fuel, t) = refl

-- `pmem_constructor` returns 0 and flushes nothing if `make` succeeds; it returns 1 and flushes
-- the object's bytes if `make` throws an `AllocationError`; any other exception leaves it,
-- without a flush.
pub pmem_constructor-Reports :
    (c : AtomicConstructor) (obj : Oid) (s : State)
    → Reports obj c.size (c.make obj s) (pmem_constructor c obj s)
unfolding pmem_constructor build
pmem_constructor-Reports c obj s = reports obj c.size (c.make obj s)
