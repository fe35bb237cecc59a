-- ===== src/Ptr/Constructor.antt =====
-- `AtomicConstructor` (src/pmem/AtomicConstructor.h), and `pmem_constructor` of
-- src/pmem/PersistentPtr.cc, the callback through which libpmemobj runs one.
pub mod Flush
use pmem.Prelude.{ℕ, zero, suc, Bool, ◌==◌}
use pmem.Prelude.Result.{allocation_error, Result, ok, err}
use pmem.Oid.{Oid}
use pmem.Memory.Objects.{State}
use pmem.Memory.Access.{M, pure, persist, ◌>>=◌, ◌>>◌}

-- `size` and `type_id` are what the allocation is made with; `make` fills the new object.
pub record AtomicConstructor : Type 0 where
  pub size : ℕ
  pub type_id : ℕ
  pub make : Oid → M (Unit {0})

-- `catch (AllocationError&) { return 1; }`: any other exception leaves `build`.
abbrev pub caught : Result (Unit {0}) × State → Result ℕ × State
caught (ok u, s) = (ok 0, s)
caught (err allocation_error, s) = (ok 1, s)
caught (err e, s) = (err e, s)

-- `AtomicConstructor::build`
unfoldable pub build : AtomicConstructor → Oid → M ℕ
build c obj s = caught (c.make obj s)

-- The end of `pmem_constructor`: `if (ret != 0) pmemobj_persist(...)`.
abbrev pub finish : ℕ → Oid → ℕ → M ℕ
finish zero obj size = pure 0
finish (suc n) obj size = do persist obj size; pure (suc n)

-- `pmem_constructor`
unfoldable pub pmem_constructor : AtomicConstructor → Oid → M ℕ
unfolding build
pmem_constructor c obj = do ret ← build c obj; finish ret obj c.size

-- `PersistentType<T>::validate_type_id`
abbrev pub validate_type_id : ℕ → ℕ → Bool
validate_type_id type_id id = type_id == id

-- `AtomicConstructorCast`: the constructor of a derived class, for a pointer to its base. The model
-- has one type of constructors, so the cast passes each call on.
unfoldable pub constructor_cast : AtomicConstructor → AtomicConstructor
constructor_cast c = record { size = c.size; type_id = c.type_id; make = c.make }

-- `AtomicConstructorN<T, X1, ..., XN>`: `make` passes the arguments on to a constructor of `T`.
unfoldable pub passing : (sizeof type_id : ℕ) → (Oid → M (Unit {0})) → AtomicConstructor
passing sizeof type_id make = record { size = sizeof; type_id = type_id; make = make }
