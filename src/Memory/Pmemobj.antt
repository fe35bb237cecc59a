-- ===== src/Memory/Pmemobj.antt =====
-- What the program takes from libpmemobj: its calls, and what its documentation says of them.
use pmem.Prelude.{ℕ, zero, suc, ◌≡◌, ◌≤◌, false, Option, none, some, List}
use pmem.Prelude.Result.{Result, ok, err}
use pmem.Oid.{Oid, null}
use pmem.Memory.Objects.{uninit, Object, State}
use pmem.Memory.Access.{M, set_object}

-- Where a pointer variable lies: on the stack, or in a persistent object.
pub data Place : Type 0 where
  volatile : Place
  inside : Oid → Place

-- The state in which the constructor of a new object starts.
abbrev pub reserve : Oid → ℕ → ℕ → State → State
reserve p size type_num =
    set_object p (some (record { type_num = type_num; size = size; content = uninit }))

-- A constructor that returns 0 publishes the object; another result gives its memory back.
abbrev pub settle : Oid → Result ℕ × State → Result (Option Oid) × State
settle p (ok zero, s) = (ok (some p), s)
settle p (ok (suc n), s) = (ok none, set_object p none s)
settle p (err e, s) = (err e, s)

-- An allocation is refused, and then nothing has changed, or it is placed where nothing was, at an
-- address in the pool that was asked for.
pub data Allocation (by_ptr : Place → List ℕ → ℕ) (pool size type_num : ℕ) (ctor : Oid → M ℕ)
    (s : State) (r : Result (Option Oid) × State) : Type 0 where
  refused : r ≡ (ok none, s) → Allocation by_ptr pool size type_num ctor s r
  placed :
      (p : Oid)
      → s.heap p ≡ none
      → null p ≡ false
      → by_ptr (inside p) s.opened ≡ pool
      → r ≡ settle p (ctor p (reserve p size type_num s))
      → Allocation by_ptr pool size type_num ctor s r

pub record Pmemobj : Type 0 where
  -- `pmemobj_alloc(pool, &oid, size, type_num, constructor)`: the new value of `oid`, or a failure
  pub alloc : ℕ → ℕ → ℕ → (Oid → M ℕ) → M (Option Oid)
  -- `pmemobj_free(&oid)`
  pub free : Oid → M (Unit {0})
  -- `pmemobj_type_num(oid)`
  pub type_num : Oid → State → ℕ
  -- `pmemobj_pool_by_ptr(address)`, by the pools that are open
  pub pool_by_ptr : Place → List ℕ → ℕ
  -- `pmemobj_alloc_usable_size(oid)`, of a block that was asked for with so many bytes: a caller may
  -- write to these bytes, as to those of `malloc_usable_size`
  pub usable_size : Oid → ℕ → ℕ
  pub usable_size_ge : (p : Oid) (size : ℕ) → size ≤ usable_size p size
  pub alloc-Allocation :
      (pool size number : ℕ) (ctor : Oid → M ℕ) (s : State)
      → Allocation pool_by_ptr pool size number ctor s (alloc pool size number ctor s)
  pub free_lem : (p : Oid) (s : State) → free p s ≡ (ok tt, set_object p none s)
  pub type_num_lem :
      (p : Oid) (o : Object) (s : State) → s.heap p ≡ some o → type_num p s ≡ o.type_num
  pub pool_by_ptr-volatile : (open_pools : List ℕ) → pool_by_ptr volatile open_pools ≡ 0
