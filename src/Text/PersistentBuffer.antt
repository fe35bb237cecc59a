-- ===== src/Text/PersistentBuffer.antt =====
-- `PersistentBuffer`: a length, and as many bytes behind it (src/pmem/PersistentBuffer.h, .cc).
use pmem.Prelude.{
  ℕ, ◌+◌, ◌%◌, ◌≤◌, ◌<◌, ◌≡◌, ◌↔◌, refl, true, ◌∷◌, take-length, Option, none, some, List, [],
  arith, ◌==◌, leb, if◌then◌else◌, length, take, word,
}
use pmem.Prelude.Result.{fault, Result, ok, err}
use pmem.Memory.Objects.{Buffer, buffer, State}
use pmem.Oid.{Oid}
use pmem.Memory.Access.{lift, throw, store, ◌>>=◌}
use pmem.Ptr.Constructor.{AtomicConstructor}

-- `sizeof(PersistentBuffer)`: the length, and an array of no bytes
abbrev pub sizeof_buffer : ℕ
sizeof_buffer = 8

-- `data_size`
unfoldable pub data_size : ℕ → ℕ
data_size n = (sizeof_buffer + n) % word

-- The constructor: `raw` is what the memory held, and `none` is a null pointer. A source of fewer
-- than `n` bytes is read out of bounds.
unfoldable pub construct : List ℕ → Option (List ℕ) → ℕ → Result Buffer
construct raw none n = ok (record { length = n; bytes = raw })
construct raw (some source) n =
    if n == 0
    then ok (record { length = n; bytes = raw })
    else if leb n (length source)
    then ok (record { length = n; bytes = take n source })
    else err fault

-- `size` and `data`
abbrev pub size : Buffer → ℕ
size b = b.length

abbrev pub bytes : Buffer → List ℕ
bytes b = b.bytes

-- `AtomicConstructor<PersistentBuffer>::size`
abbrev pub general_size : ℕ
general_size = sizeof_buffer

-- The specialisation of `size` for a `const void*`
abbrev pub void_size : ℕ → ℕ
void_size n = data_size n

-- The C++ type of the first argument that `allocate` is called with, on which the choice of `size`
-- depends.
pub data Pointer : Type 0 where
  void_pointer char_pointer : Pointer

unfoldable pub allocation_size : Pointer → ℕ → ℕ
unfolding data_size
allocation_size void_pointer n = void_size n
allocation_size char_pointer n = general_size

-- The bytes that the constructor writes, the length in front.
abbrev pub written : List ℕ → ℕ
written source = sizeof_buffer + length source

-- `AtomicConstructor2<PersistentBuffer, X1, size_t>`. The first argument says how many bytes may be
-- written to a block at an address that was asked for with a size; a copy beyond them is undefined.
unfoldable pub constructor : (Oid → ℕ → ℕ) → ℕ → Pointer → List ℕ → AtomicConstructor
unfolding allocation_size
constructor usable_size type_id pointer source = record {
  size = allocation_size pointer (length source);
  type_id = type_id;
  make = λ p.
      if leb (written source) (usable_size p (allocation_size pointer (length source)))
      then (do b ← lift (construct [] (some source) (length source)); store p (buffer b))
      else throw fault;
}

-- The bytes fit into each block that is asked for with `sizeof(PersistentBuffer)` bytes.
abbrev pub HasRoom : (Oid → ℕ → ℕ) → List ℕ → Type 0
HasRoom usable_size source = (p : Oid) → written source ≤ usable_size p sizeof_buffer

-- The buffer of these bytes.
abbrev pub buffer_of : List ℕ → Buffer
buffer_of source = record { length = length source; bytes = source }

construct_all :
    (source : List ℕ) → construct [] (some source) (length source) ≡ ok (buffer_of source)
unfolding construct
construct_all [] = refl
construct_all (c ∷ source) = ground (arith, take-length (c ∷ source))

-- Where the bytes fit, the constructor stores them, with their number.
pub make_lem :
    (usable_size : Oid → ℕ → ℕ) (type_id : ℕ) (source : List ℕ) (p : Oid) (s : State)
    → HasRoom usable_size source
    → (constructor usable_size type_id char_pointer source).make p s
      ≡ store p (buffer (buffer_of source)) s
unfolding constructor
make_lem usable_size type_id source p s room =
    let fits : leb (written source) (usable_size p sizeof_buffer) ≡ true = ground (arith, room p) in
    rw fits (rw (construct_all source) refl)

-- For bytes whose number and 8 are below 2^64: through a `const void*` the allocation is as large
-- as what is written to it; through a `const char*` it is large enough only if there are no
-- bytes.
pub allocation_size_lem :
    (source : List ℕ)
    → written source < word
    → (allocation_size void_pointer (length source) ≡ written source)
      × ((written source ≤ allocation_size char_pointer (length source)) ↔ (length source ≡ 0))
unfolding allocation_size data_size
allocation_size_lem source small = (omega arith, (λ h. omega arith, λ h. omega arith))
