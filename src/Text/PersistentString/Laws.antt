-- ===== src/Text/PersistentString/Laws.antt =====
-- Construction, access and comparison of persistent strings.
use pmem.Prelude.{
  take-length, ℕ, ◌+◌, ◌%◌, ◌≤◌, ◌<◌, ◌≡◌, refl, ap, ◌↔◌, Bool, true, false, ◌&&◌, none, some, List,
  [], ◌∷◌, ◌++◌, arith, ◌==◌, get_elem?, length, length-append, get_elem?-append,
  get_elem?-append_left, word, get_elem?-some, get_elem?-none, append_assoc, Bool-cases, inl, inr,
}
use pmem.Prelude.Result.{ok, err, out_of_range}
use pmem.Memory.Objects.{Buffer}
use pmem.Text.PersistentBuffer
use pmem.Text.PersistentString.{
  size, construct, element, strncmp_eq, equals, until_nul, list_eq, equals_std,
}

-- The buffer of a string: its bytes and a NUL, and the length of both.
abbrev pub image : List ℕ → Buffer
image str = record { length = length str + 1; bytes = str ++ 0 ∷ [] }

pub size_lem : (str : List ℕ) → length str + 1 < word → size (image str) ≡ length str
unfolding size
size_lem str small = omega arith

buffer_lem :
    (str : List ℕ)
    → length str + 1 < word
    → PersistentBuffer.construct [] (some (str ++ 0 ∷ [])) ((length str + 1) % word)
      ≡ ok (image str)
unfolding PersistentBuffer.construct
buffer_lem str small = ground (arith, take-length (str ++ 0 ∷ []), length-append str (0 ∷ []))

-- For a string shorter than 2^64 - 1, the constructor's assertion holds and it stores the bytes
-- and a NUL.
pub construct-image : (str : List ℕ) → length str + 1 < word → construct str ≡ ok (image str)
unfolding construct
construct-image str small =
    ground (arith, buffer_lem str small, size_lem str small, get_elem?-append str [] 0)

-- For a string shorter than 2^64 - 1, `operator[]` gives the byte at each index below the length,
-- and throws `OutOfRange` at any other.
pub element_lem :
    (str : List ℕ) (i : ℕ)
    → length str + 1 < word
    → element (image str) i ≡ elim (get_elem? str i) [ none ↦ err out_of_range | some c ↦ ok c ]
unfolding element
element_lem str i small = ground (
  arith,
  size_lem str small,
  get_elem?-append_left str (0 ∷ []) i,
  get_elem?-some str i,
  get_elem?-none str i,
)

-- No byte is a NUL.
abbrev pub NulFree : List ℕ → Type 0
NulFree [] = Unit {0}
NulFree (c ∷ s) = ((c == 0) ≡ false) × NulFree s

-- `s` stands in front of `t`.
unfoldable pub is_prefix : List ℕ → List ℕ → Bool
is_prefix [] t = true
is_prefix (c ∷ s) [] = false
is_prefix (c ∷ s) (d ∷ t) = (c == d) && is_prefix s t

strncmp_eq-prefix :
    (s t : List ℕ) → NulFree s → strncmp_eq (length s) (s ++ 0 ∷ []) (t ++ 0 ∷ []) ≡ is_prefix s t
unfolding strncmp_eq is_prefix
strncmp_eq-prefix [] t h = refl
strncmp_eq-prefix (c ∷ s) [] h = ground (arith, h.0)
strncmp_eq-prefix (c ∷ s) (d ∷ t) h = ground (arith, h.0, strncmp_eq-prefix s t h.1)

-- For a left string without NUL that is shorter than 2^64 - 1: `==` of two persistent strings is
-- whether the left one is a prefix of the right one.
pub equals-prefix :
    (s t : List ℕ) → NulFree s → length s + 1 < word → equals (image s) (image t) ≡ is_prefix s t
unfolding equals
equals-prefix s t h small = ground (arith, size_lem s small, strncmp_eq-prefix s t h)

list_eq_iff : (s t : List ℕ) → (list_eq s t ≡ true) ↔ (s ≡ t)
unfolding list_eq
list_eq_iff [] [] = (λ _. refl, λ _. refl)
list_eq_iff [] (d ∷ t) = (λ h. cc, λ h. cc)
list_eq_iff (c ∷ s) [] = (λ h. cc, λ h. cc)
list_eq_iff (c ∷ s) (d ∷ t) =
    (λ h. ground (arith, list_eq_iff s t), λ h. ground (arith, list_eq_iff s t))

until_nul_lem : (s : List ℕ) → NulFree s → until_nul (s ++ 0 ∷ []) ≡ s
unfolding until_nul
until_nul_lem [] h = refl
until_nul_lem (c ∷ s) h = ground (arith, h.0, until_nul_lem s h.1)

-- For a stored string without NUL that is shorter than 2^64 - 1: `==` with a `std::string` is
-- equality.
pub equals_std_iff :
    (s t : List ℕ) → NulFree s → length s + 1 < word → (equals_std (image s) t ≡ true) ↔ (s ≡ t)
unfolding equals_std
equals_std_iff s t h0 small = (
  λ h. ground (arith, until_nul_lem s h0, list_eq_iff s t),
  λ e. ground (arith, until_nul_lem s h0, list_eq_iff s t, size_lem s small, ap length e),
)

length-until_nul : (s t : List ℕ) → length (until_nul (s ++ 0 ∷ t)) ≤ length s
unfolding until_nul
length-until_nul [] t = ground arith
length-until_nul (c ∷ s) t = ground (arith, length-until_nul s t)

-- A stored string with a NUL in it, shorter than 2^64 - 1, is equal to no `std::string`.
pub equals_std-nul :
    (s t u : List ℕ) → length (s ++ 0 ∷ t) + 1 < word → equals_std (image (s ++ 0 ∷ t)) u ≡ false
unfolding equals_std
equals_std-nul s t u small =
    let shown = until_nul ((s ++ 0 ∷ t) ++ 0 ∷ []) in
    let short : length shown ≤ length s =
      rw (append_assoc s (0 ∷ t) (0 ∷ [])) (length-until_nul s (t ++ 0 ∷ [])) in
    elim (Bool-cases (list_eq shown u)) [
      | inl same ↦ ground (
        arith,
        size_lem (s ++ 0 ∷ t) small,
        short,
        ap length ((list_eq_iff shown u).0 same),
        length-append s (0 ∷ t),
      )
      | inr differ ↦ ground (arith, differ)
    ]
