-- ===== src/Vector/Pointer/Check.antt =====
-- `consistency_check` and what stands on it, on data that hold pointers.
use pmem.Prelude.{
  ℕ, zero, suc, ◌+◌, ◌-◌, ◌≤◌, ◌≡◌, refl, Bool, true, false, ◌||◌, List, [], ◌∷◌, ◌++◌, inl, inr,
  arith, length, ltb, if◌then◌else◌, Bool-cases, ◌==◌,
}
use pmem.Prelude.Result.{ok, err, out_of_range}
use pmem.Oid.{Oid}
use pmem.Vector.Data.{store_nelem, flush_nelem, Image, update_nelem}
use pmem.Vector.Pointer.{next_null, check_last, consistency_check, size, full, free_slot}
use pmem.Vector.Pointer.Holds.{Holds, Settled, get-live, get-free}

-- The image after the check: the count mended where it was behind.
abbrev pub mended : ℕ → Image Oid → Image Oid
mended n s =
    if ltb s.now.nelem n
    then record s {
      now = record s.now { nelem = n };
      events = (s.events ++ store_nelem n ∷ []) ++ flush_nelem ∷ [];
    }
    else s

module _ (s : Image Oid) {xs : List Oid} (h : Holds s.now xs) where
  next_null_lem :
      (k n : ℕ) (moved : Bool)
      → n + k ≡ s.now.allocated_size
      → n ≤ length xs
      → next_null k n moved s ≡ (ok (moved || ltb n (length xs), length xs), s)
  unfolding next_null
  next_null_lem zero n moved e le = ground (arith, h.fits)
  next_null_lem (suc k) n moved e le = elim (Bool-cases (ltb n (length xs))) [
    | inl lt ↦
        let (p, at, alive) = get-live h n (ground arith) in
        ground (arith, next_null_lem k (suc n) true)
    | inr ge ↦ ground (arith, get-free h)
  ]

  check_last_lem : (n : ℕ) → n ≤ length xs → check_last n s ≡ (ok tt, s)
  unfolding check_last
  check_last_lem zero le = refl
  check_last_lem (suc n) le = let (p, at, alive) = get-live h n le in ground arith

  -- On data that hold `xs`, whose count may lag: the check succeeds; where the count was behind
  -- it is now the length of `xs`, stored and then flushed, and otherwise nothing was stored or
  -- flushed.
  pub consistency_check_lem : consistency_check s ≡ (ok tt, mended (length xs) s)
  unfolding consistency_check update_nelem
  consistency_check_lem = ground (
    arith,
    h.counted,
    h.fits,
    check_last_lem s.now.nelem,
    next_null_lem (s.now.allocated_size - s.now.nelem) s.now.nelem false,
  )

  mended-now : (mended (length xs) s).now ≡ record s.now { nelem = length xs }
  mended-now = ground (arith, h.counted)

  pub mended-Settled : Settled (mended (length xs) s).now xs
  mended-Settled = rw mended-now (record {
    holds = record {
      live = h.live;
      layout = h.layout;
      fits = h.fits;
      counted = omega arith;
      in_word = h.in_word;
    };
    exact = refl;
  })

  pub size_lem : size s ≡ (ok (length xs), mended (length xs) s)
  unfolding size
  size_lem = ground (arith, h.fits, h.counted, consistency_check_lem)

  pub full_lem : full s ≡ (ok (length xs == s.now.allocated_size), mended (length xs) s)
  unfolding full
  full_lem = ground (arith, h.fits, h.counted, consistency_check_lem)

  pub free_slot_lem : free_slot s ≡ (
    (if length xs == s.now.allocated_size then err out_of_range else ok (length xs)),
    mended (length xs) s,
  )
  unfolding free_slot
  free_slot_lem = ground (arith, h.fits, h.counted, consistency_check_lem)

  pub mended-size : (mended (length xs) s).now.allocated_size ≡ s.now.allocated_size
  mended-size = ground arith
