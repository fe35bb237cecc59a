-- ===== src/Tree/Node/Overflow.antt =====
-- Leaves whose data do not fit into the block that `allocateLeaf` asks for.
use pmem.Prelude.{Bool, ℕ, ◌<◌, ◌≡◌, refl, ◌⊎◌, inl, inr, false, List, String, arith, leb, length}
use pmem.Prelude.Result.{Error, allocation_error, fault, err}
use pmem.Oid.{Oid, oid_null}
use pmem.Memory.Objects.{PersistentPool, State}
use pmem.Memory.Ends
use pmem.Memory.Ends.{Ends, throws}
use pmem.Memory.Pmemobj.{Pmemobj}
use pmem.Ptr.Pointer.Allocate.{allocate_ctr-Ends}
use pmem.Text.PersistentBuffer
use pmem.Pool.PersistentPool.{allocate}
use pmem.Tree.Schema.{KeyType}
use pmem.Tree.Node.{buffer_type, allocate_nested, allocate_leaf}
use pmem.Tree.Node.Nest.{value_at, value_before_lem}

-- No block that is asked for with `sizeof(PersistentBuffer)` bytes takes the bytes.
abbrev pub NoRoom : (Oid → ℕ → ℕ) → List ℕ → Type 0
NoRoom usable_size source =
    (p : Oid) → usable_size p PersistentBuffer.sizeof_buffer < PersistentBuffer.written source

-- A refused allocation, or a write out of bounds.
abbrev pub Overflow : Error → State → Type 0
Overflow e u = (e ≡ allocation_error) ⊎ (e ≡ fault)

module _ (lib : Pmemobj) (fits : String → Bool) (pool : PersistentPool) (blob : List ℕ)
    (no_room : NoRoom lib.usable_size blob) where
  make_fault :
      (p : Oid) (t : State)
      → (PersistentBuffer.constructor lib.usable_size buffer_type PersistentBuffer.char_pointer
            blob).make
          p t
        ≡ (err fault, t)
  unfolding PersistentBuffer.constructor
  make_fault p t =
      let over : leb (PersistentBuffer.written blob)
            (lib.usable_size p PersistentBuffer.sizeof_buffer)
          ≡ false =
        ground (arith, no_room p) in
      rw over refl

  leaf_fault :
      (v : String) (s : State) → Ends (λ q u. ⊥) Overflow (allocate_leaf lib fits pool v blob s)
  unfolding allocate_leaf allocate PersistentBuffer.constructor
  leaf_fault v s =
      Ends.bind _
        (allocate_ctr-Ends lib
          (PersistentBuffer.constructor lib.usable_size buffer_type PersistentBuffer.char_pointer
            blob)
          s (λ p t. ⊥) Overflow pool.handle oid_null refl (inl refl)
          (λ p free alive lies. rw (make_fault p _) (throws (inr refl))))
        λ q t (free, alive, none_made). absurd none_made

  -- For data that fit, with their length in front, into no block that libpmemobj gives where
  -- `sizeof(PersistentBuffer)` bytes are asked for, which are all but the empty ones if it gives
  -- just these bytes: `allocateNested` never makes a node; an allocation is refused, or the data
  -- are copied out of bounds.
  pub allocate_nested-Overflow :
      (value : String) (chain : KeyType) (s : State)
      → Ends (λ q u. ⊥) Overflow (allocate_nested lib fits pool value chain blob s)
  unfolding allocate_nested
  allocate_nested-Overflow value chain s =
      rw (value_before_lem fits lib value chain (length chain) s (omega arith)) (
        Ends.bind _ (leaf_fault (value_at value chain (length chain)) s)
          λ q t none_made. absurd none_made)
