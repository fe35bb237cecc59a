-- ===== src/Vector/Pointer/Construct.antt =====
-- The two constructors of `PersistentVectorData`, in an allocation of the size asked for.
use pmem.Prelude.{
  ℕ, zero, suc, ◌-◌, ◌≤◌, ◌<◌, ◌≡◌, refl, List, [], ◌∷◌, ◌++◌, arith, length, replicate, drop, word,
  append_assoc, set-append, length-append, length-drop,
}
use pmem.Prelude.Result.{ok, err, assertion_failed}
use pmem.Oid.{Oid, oid_null}
use pmem.Vector.Data.{VectorData, Image}
use pmem.Vector.Data.Copy.{copy_lem}
use pmem.Vector.Pointer.{nullify, construct, copied, construct_copy}
use pmem.Vector.Pointer.Holds.{AllLive, Holds, Settled}
use pmem.Vector.Pointer.Check.{mended, mended-Settled, size_lem}

nullify-append :
    (k : ℕ) (front back : List Oid)
    → length back ≡ k
    → nullify k (length front) (front ++ back) ≡ front ++ replicate k oid_null
unfolding nullify
nullify-append zero front [] e = refl
nullify-append zero front (x ∷ back) e = absurd (omega arith)
nullify-append (suc k) front [] e = absurd (omega arith)
nullify-append (suc k) front (x ∷ back) e = ground (
  arith,
  set-append front back x oid_null,
  nullify-append k (front ++ oid_null ∷ []) back,
  length-append front (oid_null ∷ []),
  append_assoc front (oid_null ∷ []) (replicate k oid_null),
)

abbrev pub data_of : List Oid → ℕ → VectorData Oid
data_of xs max_size = record {
  nelem = length xs;
  allocated_size = max_size;
  elements = xs ++ replicate (max_size - length xs) oid_null;
}

-- In an allocation of `max_size` slots, whatever they held, the constructor gives data without
-- elements in which each slot is null.
pub construct_lem :
    (raw : List Oid) (max_size : ℕ)
    → length raw ≡ max_size
    → construct raw max_size ≡ ok (data_of [] max_size)
unfolding construct
construct_lem raw max_size e = ground (arith, nullify-append max_size [] raw)

pub data_of-Settled :
    (xs : List Oid) (max_size : ℕ)
    → AllLive xs
    → length xs ≤ max_size
    → max_size < word
    → Settled (data_of xs max_size) xs
data_of-Settled xs max_size live fits small = record {
  holds = record {
    live = live;
    layout = refl;
    fits = fits;
    counted = omega arith;
    in_word = small;
  };
  exact = refl;
}

copied_lem :
    {d : VectorData Oid} {xs : List Oid} (raw : List Oid) (max_size : ℕ)
    → Holds d xs
    → length raw ≡ max_size
    → length xs < max_size
    → copied raw max_size (length xs) d.elements ≡ ok (data_of xs max_size)
unfolding copied
copied_lem {d} {xs} raw max_size h e room = ground (
  arith,
  h.layout,
  copy_lem xs (replicate (d.allocated_size - length xs) oid_null) raw,
  nullify-append (max_size - length xs) xs (drop (length xs) raw),
  length-drop (length xs) raw,
)

module _ (s : Image Oid) {xs : List Oid} (h : Holds s.now xs) (raw : List Oid) (max_size : ℕ) where
  -- From data that hold `xs`, into an allocation of more slots than `xs` has elements: the copy
  -- holds `xs`, with its count, and null pointers behind; of the source only a count that lagged
  -- has changed.
  pub construct_copy_lem :
      length raw ≡ max_size
      → length xs < max_size
      → construct_copy raw max_size s ≡ (ok (data_of xs max_size), mended (length xs) s)
  unfolding construct_copy
  construct_copy_lem e room = ground (
    arith,
    size_lem s h,
    (mended-Settled s h).layout,
    copied_lem raw max_size (mended-Settled s h).holds,
  )

  -- From data that hold `xs`, for no more slots than `xs` has elements: the assertion fails, and
  -- of the source only a count that lagged has changed.
  pub construct_copy-small :
      max_size ≤ length xs
      → construct_copy raw max_size s ≡ (err assertion_failed, mended (length xs) s)
  unfolding construct_copy
  construct_copy-small le = ground (arith, size_lem s h)
