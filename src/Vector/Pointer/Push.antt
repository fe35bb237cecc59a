-- ===== src/Vector/Pointer/Push.antt =====
-- `push_back_elem` on data that hold pointers.
use pmem.Prelude.{◌+◌, ◌<◌, ◌≡◌, false, List, [], ◌∷◌, ◌++◌, arith, set, length, length-append}
use pmem.Prelude.Result.{ok, err, out_of_range}
use pmem.Oid.{Oid, null}
use pmem.Vector.Data.{VectorData, store_elem, flush_elem, store_nelem, flush_nelem, Image, ◌>>◌}
use pmem.Vector.Pointer.{fill_slot, count_one, push_back_elem}
use pmem.Vector.Pointer.Holds.{Holds, Settled, AllLive-append, length-elements, set-free}
use pmem.Vector.Pointer.Check.{mended, mended-Settled, free_slot_lem}

-- The data after one more pointer.
abbrev pub appended : List Oid → Oid → VectorData Oid → VectorData Oid
appended xs p d = record d { nelem = length xs + 1; elements = set d.elements (length xs) p }

module _ {d : VectorData Oid} {xs : List Oid} (h : Holds d xs) where
  pub appended-Settled :
      (p : Oid)
      → null p ≡ false
      → length xs < d.allocated_size
      → Settled (appended xs p d) (xs ++ p ∷ [])
  appended-Settled p alive room = record {
    holds = record {
      live = AllLive-append xs (p ∷ []) h.live (alive, tt);
      layout = set-free h p room;
      fits = omega (arith, length-append xs (p ∷ []));
      counted = omega (arith, length-append xs (p ∷ []));
      in_word = h.in_word;
    };
    exact = omega (arith, length-append xs (p ∷ []));
  }

-- The image after a slot is filled and counted.
abbrev pub pushed : List Oid → Oid → Image Oid → Image Oid
pushed xs p s = record s {
  now = appended xs p s.now;
  events =
      (((s.events ++ store_elem (length xs) p ∷ []) ++ flush_elem (length xs) ∷ [])
        ++ store_nelem (length xs + 1) ∷ [])
      ++ flush_nelem ∷ [];
}

fill_slot-count_one :
    (s : Image Oid) {xs : List Oid} (p : Oid)
    → Settled s.now xs
    → length xs < s.now.allocated_size
    → (fill_slot (length xs) p >> count_one) s ≡ (ok tt, pushed xs p s)
unfolding fill_slot count_one
fill_slot-count_one s {xs} p h room = ground (arith, length-elements h.holds)

module _ (s : Image Oid) {xs : List Oid} (h : Holds s.now xs) where
  -- On data that hold `xs`, whose count may lag, with a free slot: the push mends the count,
  -- stores the element in the first free slot, flushes the slot, and then stores and flushes the
  -- new count, in this order.
  pub push_back_elem_lem :
      (p : Oid)
      → length xs < s.now.allocated_size
      → push_back_elem p s ≡ (ok tt, pushed xs p (mended (length xs) s))
  unfolding push_back_elem
  push_back_elem_lem p room =
      ground (
        arith,
        free_slot_lem s h,
        fill_slot-count_one (mended (length xs) s) p (mended-Settled s h),
      )

  -- On data that hold `xs` without a free slot: the push throws `OutOfRange`, and nothing has
  -- changed but a count that lagged.
  pub push_back_elem-full :
      (p : Oid)
      → length xs ≡ s.now.allocated_size
      → push_back_elem p s ≡ (err out_of_range, mended (length xs) s)
  unfolding push_back_elem
  push_back_elem-full p e = ground (arith, free_slot_lem s h)
