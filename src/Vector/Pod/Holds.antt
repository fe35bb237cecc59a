-- ===== src/Vector/Pod/Holds.antt =====
-- The methods of a vector of values, on data that hold the values `xs`.
use pmem.Prelude.{
  ℕ, ◌+◌, ◌≤◌, ◌<◌, ◌≡◌, refl, List, [], ◌∷◌, ◌++◌, arith, set, get_elem?, length, take, drop, word,
  ◌==◌, length-append, length-set, length-drop, take-set, take-append, take-append-drop,
  get_elem?-append_left,
}
use pmem.Prelude.Result.{ok, err, assertion_failed, out_of_range}
use pmem.Vector.Data.{VectorData, store_elem, store_nelem, flush_elem, flush_nelem, Image}
use pmem.Vector.Data.Copy.{copy_lem}
use pmem.Vector.Pod.{size, full, push_back, construct_copy}

-- The counted slots are `xs`; what stands behind them is arbitrary.
pub record Holds {A : Type 0} (d : VectorData A) (xs : List A) : Type 0 where
  pub layout : take d.nelem d.elements ≡ xs
  pub exact : d.nelem ≡ length xs
  pub fits : length xs ≤ d.allocated_size
  pub slots : length d.elements ≡ d.allocated_size
  pub in_word : d.allocated_size < word

abbrev pub appended : {A : Type 0} → ℕ → A → VectorData A → VectorData A
appended n v d = record d { nelem = n + 1; elements = set d.elements n v }

abbrev pub pushed : {A : Type 0} → ℕ → A → Image A → Image A
pushed n v s = record s {
  now = appended n v s.now;
  events =
      (((s.events ++ store_elem n v ∷ []) ++ flush_elem n ∷ []) ++ store_nelem (n + 1) ∷ [])
      ++ flush_nelem ∷ [];
}

module _ {A : Type 0} (s : Image A) {xs : List A} (h : Holds s.now xs) where
  pub size_lem : size s ≡ (ok (length xs), s)
  unfolding size
  size_lem = ground (arith, h.exact, h.fits)

  pub full_lem : full s ≡ (ok (length xs == s.now.allocated_size), s)
  unfolding full
  full_lem = ground (arith, h.exact, h.fits)

  -- On data that hold the values `xs`, with a free slot: the push stores the value in the slot at
  -- the count, flushes it, and then stores and flushes the new count, in this order.
  pub push_back_lem :
      (v : A) → length xs < s.now.allocated_size → push_back v s ≡ (ok tt, pushed (length xs) v s)
  unfolding push_back
  push_back_lem v room = ground (arith, h.exact, h.slots, h.in_word)

  pub push_back-full :
      (v : A) → length xs ≡ s.now.allocated_size → push_back v s ≡ (err out_of_range, s)
  unfolding push_back
  push_back-full v e = ground (arith, h.exact)

  pub construct_copy-small :
      (raw : List A) (max_size : ℕ)
      → max_size ≤ length xs
      → construct_copy raw max_size s ≡ (err assertion_failed, s)
  unfolding construct_copy
  construct_copy-small raw max_size le = ground (arith, size_lem)

  abbrev pub copy_of : List A → ℕ → VectorData A
  copy_of raw max_size = record {
    nelem = length xs;
    allocated_size = max_size;
    elements = xs ++ drop (length xs) raw;
  }

  -- From data that hold the values `xs`, into an allocation of more slots than that: the copy
  -- counts and holds `xs`, the slots behind are as the memory was, and the source is unchanged.
  pub construct_copy-copy_of :
      (raw : List A) (max_size : ℕ)
      → length raw ≡ max_size
      → length xs < max_size
      → construct_copy raw max_size s ≡ (ok (copy_of raw max_size), s)
  unfolding construct_copy
  construct_copy-copy_of raw max_size e room = ground (
    arith,
    size_lem,
    h.exact,
    h.layout,
    take-append-drop (length xs) s.now.elements,
    copy_lem xs (drop (length xs) s.now.elements) raw,
  )

  pub copy_of-Holds :
      (raw : List A) (max_size : ℕ)
      → length raw ≡ max_size
      → length xs < max_size
      → max_size < word
      → Holds (copy_of raw max_size) xs
  copy_of-Holds raw max_size e room small = record {
    layout = take-append (length xs) xs (drop (length xs) raw) refl;
    exact = refl;
    fits = omega arith;
    slots = omega (arith, length-append xs (drop (length xs) raw), length-drop (length xs) raw);
    in_word = small;
  }

module _ {A : Type 0} {d : VectorData A} {xs : List A} (h : Holds d xs) where
  pub appended-Holds :
      (v : A) → length xs < d.allocated_size → Holds (appended (length xs) v d) (xs ++ v ∷ [])
  appended-Holds v room = record {
    layout = ground (arith, h.layout, h.exact, h.slots, take-set d.elements (length xs) v);
    exact = omega (arith, length-append xs (v ∷ []));
    fits = omega (arith, length-append xs (v ∷ []));
    slots = omega (arith, length-set d.elements (length xs) v, h.slots);
    in_word = h.in_word;
  }

  pub element_lem : (i : ℕ) → i < length xs → get_elem? d.elements i ≡ get_elem? xs i
  element_lem i lt = ground (
    arith,
    h.layout,
    h.exact,
    h.slots,
    take-append-drop (length xs) d.elements,
    get_elem?-append_left xs (drop (length xs) d.elements) i,
  )
