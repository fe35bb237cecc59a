-- ===== src/Text/PersistentString.antt =====
-- `PersistentString`: the bytes of a string and a NUL (src/pmem/PersistentString.h, .cc).
pub mod Laws
use pmem.Prelude.{
  ℕ, zero, suc, ◌+◌, ◌-◌, ◌%◌, Bool, true, false, not, ◌&&◌, Option, none, some, List, [], ◌∷◌,
  ◌++◌, ◌==◌, leb, if◌then◌else◌, get_elem?, length, word,
}
use pmem.Prelude.Result.{assertion_failed, out_of_range, fault, Result, ok, err}
use pmem.Memory.Objects.{Buffer}
use pmem.Text.PersistentBuffer

-- `size` and `length`: in `size_t`, so that a buffer of no bytes would have the largest size.
unfoldable pub size : Buffer → ℕ
size s = (PersistentBuffer.size s + word - 1) % word

-- `c_str` and `data`
abbrev pub c_str : Buffer → List ℕ
c_str s = PersistentBuffer.bytes s

-- A read of one byte, which is undefined outside the memory.
abbrev pub byte_at : List ℕ → ℕ → Result ℕ
byte_at bytes i = elim (get_elem? bytes i) [ none ↦ err fault | some c ↦ ok c ]

check_nul : Buffer → Result ℕ → Result Buffer
check_nul s (ok c) = if c == 0 then ok s else err assertion_failed
check_nul s (err e) = err e

checked : Result Buffer → Result Buffer
checked (ok s) = check_nul s (byte_at (c_str s) (size s))
checked (err e) = err e

-- The constructor: `str.c_str()` is the string's bytes and a NUL.
unfoldable pub construct : List ℕ → Result Buffer
unfolding checked check_nul size
construct str =
    checked (PersistentBuffer.construct [] (some (str ++ 0 ∷ [])) ((length str + 1) % word))

-- The size of the allocation: `AtomicConstructor1Base<PersistentString, std::string>::size`
unfoldable pub allocation_size : List ℕ → ℕ
allocation_size str = PersistentBuffer.data_size ((length str + 1) % word)

-- `operator[]`
unfoldable pub element : Buffer → ℕ → Result ℕ
unfolding size
element s i = if leb (size s) i then err out_of_range else byte_at (c_str s) i

-- `strncmp(a, b, n) == 0`: the comparison ends at a difference, at a NUL, or after `n` bytes.
unfoldable pub strncmp_eq : ℕ → List ℕ → List ℕ → Bool
strncmp_eq zero a b = true
strncmp_eq (suc n) (c ∷ a) (d ∷ b) =
    let rest = strncmp_eq n a b in if c == d then (if c == 0 then true else rest) else false
strncmp_eq (suc n) a b = false

-- `operator==(const PersistentString&)`: both sizes are this string's.
unfoldable pub equals : Buffer → Buffer → Bool
unfolding size strncmp_eq
equals s rhs =
    let lsize = size s in
    let rsize = size s in
    if not (lsize == rsize) then false else strncmp_eq lsize (c_str s) (c_str rhs)

-- The bytes in front of the first NUL: what a `const char*` stands for.
unfoldable pub until_nul : List ℕ → List ℕ
until_nul [] = []
until_nul (c ∷ s) = if c == 0 then [] else c ∷ until_nul s

-- Equality of `std::string`s.
unfoldable pub list_eq : List ℕ → List ℕ → Bool
list_eq [] [] = true
list_eq (c ∷ s) (d ∷ t) = (c == d) && list_eq s t
list_eq _ _ = false

-- `operator==(const std::string&)`
unfoldable pub equals_std : Buffer → List ℕ → Bool
unfolding size until_nul list_eq
equals_std s rhs = if not (size s == length rhs) then false else list_eq (until_nul (c_str s)) rhs

-- `operator!=`, for both kinds of right side
unfoldable pub differs : Buffer → Buffer → Bool
unfolding equals
differs s rhs = not (equals s rhs)

unfoldable pub differs_std : Buffer → List ℕ → Bool
unfolding equals_std
differs_std s rhs = not (equals_std s rhs)
