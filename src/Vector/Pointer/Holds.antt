-- ===== src/Vector/Pointer/Holds.antt =====
-- What a vector's data hold: live pointers in front, null slots behind, and a count that may lag.
use pmem.Prelude.{
  ℕ, zero, suc, ◌-◌, ◌≤◌, ◌<◌, ◌≡◌, refl, ap, false, some, List, [], ◌∷◌, ◌++◌, arith, get_elem?,
  set, length, replicate, word, get_elem?-append, get_elem?-some_append, set-append, length-append,
  length-replicate,
}
use pmem.Oid.{Oid, oid_null, null}
use pmem.Vector.Data.{VectorData}

-- No pointer of the list is null.
abbrev pub AllLive : List Oid → Type 0
AllLive [] = Unit {0}
AllLive (p ∷ ps) = (null p ≡ false) × AllLive ps

-- `d` holds the pointers `xs`. The count may be behind, as after a power failure.
pub record Holds (d : VectorData Oid) (xs : List Oid) : Type 0 where
  pub live : AllLive xs
  pub layout : d.elements ≡ xs ++ replicate (d.allocated_size - length xs) oid_null
  pub fits : length xs ≤ d.allocated_size
  pub counted : d.nelem ≤ length xs
  pub in_word : d.allocated_size < word

-- `Holds`, with a count that is right.
pub record Settled (d : VectorData Oid) (xs : List Oid) : Type 0 where
  pub holds : Holds d xs
  pub open holds use *
  pub exact : d.nelem ≡ length xs

pub AllLive-append : (xs ys : List Oid) → AllLive xs → AllLive ys → AllLive (xs ++ ys)
AllLive-append [] ys h k = k
AllLive-append (x ∷ xs) ys h k = (h.0, AllLive-append xs ys h.1 k)

pub live_at :
    (xs ys : List Oid) (i : ℕ)
    → AllLive xs
    → i < length xs
    → (p : Oid) × (get_elem? (xs ++ ys) i ≡ some p) × (null p ≡ false)
live_at [] ys i h lt = elim lt [ ]
live_at (x ∷ xs) ys zero h lt = (x, refl, h.0)
live_at (x ∷ xs) ys (suc i) h lt = live_at xs ys i h.1 (omega arith)

module _ {d : VectorData Oid} {xs : List Oid} (h : Holds d xs) where
  pub length-elements : length d.elements ≡ d.allocated_size
  length-elements = omega (
    arith,
    ap length h.layout,
    length-append xs (replicate (d.allocated_size - length xs) oid_null),
    length-replicate {0} (d.allocated_size - length xs) oid_null,
    h.fits,
  )

  gap :
      length xs < d.allocated_size
      → d.allocated_size - length xs ≡ suc (d.allocated_size - suc (length xs))
  gap room = omega arith

  pub get-live :
      (i : ℕ) → i < length xs → (p : Oid) × (get_elem? d.elements i ≡ some p) × (null p ≡ false)
  get-live i lt = rw h.layout (live_at xs _ i h.live lt)

  pub get_elem?-held : (i : ℕ) (c : Oid) → get_elem? xs i ≡ some c → get_elem? d.elements i ≡ some c
  get_elem?-held i c is = rw h.layout (get_elem?-some_append xs _ i c is)

  pub get-free : length xs < d.allocated_size → get_elem? d.elements (length xs) ≡ some oid_null
  get-free room = rw (h.layout, gap room) (get_elem?-append xs _ _)

  -- A store to the first free slot appends.
  pub set-free :
      (v : Oid)
      → length xs < d.allocated_size
      → set d.elements (length xs) v
        ≡ (xs ++ v ∷ []) ++ replicate (d.allocated_size - length (xs ++ v ∷ [])) oid_null
  set-free v room =
      let left : d.allocated_size - length (xs ++ v ∷ []) ≡ d.allocated_size - suc (length xs) =
        omega (arith, length-append xs (v ∷ [])) in
      rw (h.layout, gap room, left) (set-append xs _ _ v)

  -- The same slots, with another count that is not too large.
  pub Holds-same :
      (e : VectorData Oid)
      → e.elements ≡ d.elements
      → e.nelem ≤ length xs
      → e.allocated_size ≡ d.allocated_size
      → Holds e xs
  Holds-same e same count size = record {
    live = h.live;
    layout = rw (same, size) h.layout;
    fits = omega (arith, h.fits);
    counted = count;
    in_word = omega (arith, h.in_word);
  }
