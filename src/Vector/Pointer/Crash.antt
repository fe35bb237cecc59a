-- ===== src/Vector/Pointer/Crash.antt =====
-- Power failures in the middle of `push_back_elem` of `PersistentVectorData`. A slot is a `PMEMoid`
-- of two words, and persistent memory takes in a word at a time.
use pmem.Prelude.{
  ℕ, ◌+◌, ◌-◌, ◌≤◌, ◌<◌, ◌≡◌, refl, ap, ◌∙◌, ◌⊎◌, inl, inr, Bool, true, false, some, List, [], ◌∷◌,
  ◌++◌, arith, set, get_elem?, length, length-append, ltb, replicate, set-get_self,
}
use pmem.Oid.{Oid, oid_null, null}
use pmem.Vector.Data.{VectorData, Image}
use pmem.Vector.Crash.{Tears, Crash, Plan, crash_lem}
use pmem.Vector.Crash.Push.{
  Tearing, idle, stored, flushed, counted, Counts, Covers, During, push_plan, mended_plan,
}
use pmem.Vector.Pointer.{push_back_elem}
use pmem.Vector.Pointer.Holds.{Holds, Holds-same, AllLive-append, get-free, set-free}
use pmem.Vector.Pointer.Check.{mended}
use pmem.Vector.Pointer.Push.{pushed, push_back_elem_lem}

-- The count may lag.
abbrev lagging : ℕ → Counts
lagging n = record { Before = λ k. k ≤ n; After = λ k. k ≤ n + 1; weaken = λ k h. omega arith }

-- Each of the two words is the old one or the new one.
abbrev pub Halves : Tears Oid
Halves x y z =
    ((z.pool_uuid_lo ≡ x.pool_uuid_lo) ⊎ (z.pool_uuid_lo ≡ y.pool_uuid_lo))
    × ((z.off ≡ x.off) ⊎ (z.off ≡ y.off))

-- A pointer of which only the offset has arrived, or only the pool.
abbrev pub off_only : Oid → Oid
off_only p = record { pool_uuid_lo = 0; off = p.off }

abbrev pub pool_only : Oid → Oid
pool_only p = record { pool_uuid_lo = p.pool_uuid_lo; off = 0 }

same_words : (x z : Oid) → z.pool_uuid_lo ≡ x.pool_uuid_lo → z.off ≡ x.off → z ≡ x
same_words x z e f = cc (e, f)

abbrev halves : (p : Oid) → Tearing Halves oid_null p
halves p = record {
  Between = Halves oid_null p;
  first = (inl refl, inl refl);
  last = (inr refl, inr refl);
  torn = λ x z (a, b) (c, d).
      (elim c [ inl e ↦ rw e a | inr e ↦ inr e ], elim d [ inl e ↦ rw e b | inr e ↦ inr e ]);
  same = λ x z (a, b).
      let e : z.pool_uuid_lo ≡ x.pool_uuid_lo = elim a [ inl e ↦ e | inr e ↦ e ] in
      let f : z.off ≡ x.off = elim b [ inl f ↦ f | inr f ↦ f ] in same_words x z e f;
}

-- What a slot may hold in the middle.
halves_cases :
    (p z : Oid)
    → Halves oid_null p z
    → (z ≡ oid_null) ⊎ (z ≡ p) ⊎ (z ≡ off_only p) ⊎ (z ≡ pool_only p)
halves_cases p z (inl a, inl b) = inl (cc (a, b))
halves_cases p z (inr a, inr b) = inr (inl (cc (a, b)))
halves_cases p z (inl a, inr b) = inr (inr (inl (cc (a, b))))
halves_cases p z (inr a, inl b) = inr (inr (inr (cc (a, b))))

-- The pointers `xs`, a slot with the pool of `p` and a null offset, and null slots behind.
pub record HoldsPool (d : VectorData Oid) (xs : List Oid) (p : Oid) : Type 0 where
  pub layout :
      d.elements
      ≡ (xs ++ pool_only p ∷ [])
        ++ replicate (d.allocated_size - length (xs ++ pool_only p ∷ [])) oid_null
  pub counted : d.nelem ≤ length xs

-- What persistent memory may hold: the pointers from before the push, those with the new one, or
-- those with a half of the new one.
abbrev pub AfterFailure : List Oid → Oid → VectorData Oid → Type 0
AfterFailure xs p d =
    Holds d xs ⊎ Holds d (xs ++ p ∷ []) ⊎ Holds d (xs ++ off_only p ∷ []) ⊎ HoldsPool d xs p

module _ {d : VectorData Oid} {xs : List Oid} (h : Holds d xs) (p : Oid) (alive : null p ≡ false)
    (room : length xs < d.allocated_size) where
  Holds-new :
      (z : Oid) (e : VectorData Oid)
      → null z ≡ false
      → e.elements ≡ set d.elements (length xs) z
      → e.nelem ≤ length xs + 1
      → e.allocated_size ≡ d.allocated_size
      → Holds e (xs ++ z ∷ [])
  Holds-new z e live same count size = record {
    live = AllLive-append xs (z ∷ []) h.live (live, tt);
    layout = rw (same, size) (set-free h z room);
    fits = omega (arith, length-append xs (z ∷ []), size);
    counted = omega (arith, length-append xs (z ∷ []));
    in_word = omega (arith, h.in_word);
  }

  free_slot : get_elem? d.elements (length xs) ≡ some oid_null
  free_slot = get-free h room

  abbrev half : Tearing Halves oid_null p
  half = halves p

  -- A slot that still is null.
  still :
      (x : VectorData Oid)
      → x.elements ≡ set d.elements (length xs) oid_null
      → x.nelem ≤ length xs
      → x.allocated_size ≡ d.allocated_size
      → Holds x xs
  still x e count size =
      Holds-same h x (e ∙ set-get_self d.elements (length xs) oid_null free_slot) count size

  covers :
      Covers half
        (lagging (length xs))
        d.elements
        (length xs)
        free_slot
        d.allocated_size
        (AfterFailure xs p)
  covers idle x (z, is, e) count size =
      inl (still x (e ∙ ap (λ z. set d.elements (length xs) z) is) count size)
  covers stored x (z, is, e) count size = elim (halves_cases p z is) [
    | inl null_z ↦ inl (still x (e ∙ ap (λ z. set d.elements (length xs) z) null_z) count size)
    | inr (inl whole) ↦ inr (
        inl (
          Holds-new p x alive (e ∙ ap (λ z. set d.elements (length xs) z) whole)
            (omega (arith, count)) size))
    | inr (inr (inl off)) ↦ inr (
        inr (
          inl (
            Holds-new (off_only p) x alive (e ∙ ap (λ z. set d.elements (length xs) z) off)
              (omega (arith, count)) size)))
    | inr (inr (inr of_pool)) ↦ inr (
        inr (
          inr (record {
            layout = rw size (
                e ∙ ap (λ z. set d.elements (length xs) z) of_pool ∙ set-free h (pool_only p) room);
            counted = count;
          })))
  ]
  covers flushed x (z, is, e) count size = inr (
      inl (
        Holds-new p x alive (e ∙ ap (λ z. set d.elements (length xs) z) is) (omega (arith, count))
          size))
  covers counted x (z, is, e) count size =
      inr (inl (Holds-new p x alive (e ∙ ap (λ z. set d.elements (length xs) z) is) count size))

  abbrev start : Image Oid
  start = record { now = d; events = [] }

  abbrev Begun : Type 1
  Begun =
      (b : Bool)
      → ltb d.nelem (length xs) ≡ b
      → Plan Halves (AfterFailure xs p) (pushed xs p (mended (length xs) start)).events
          (During half (lagging (length xs)) d.elements (length xs) free_slot d.allocated_size idle)

  plan_of : Begun
  plan_of true e = rw e (
      mended_plan half _ _ _ free_slot _ _ covers (length xs) (omega arith)
        (push_plan half _ _ _ free_slot _ _ covers (length xs + 1) (omega arith)))
  plan_of false e = rw e (push_plan half _ _ _ free_slot _ _ covers (length xs + 1) (omega arith))

  -- A push of an element that is not null, into data with a free slot, that is cut short by a
  -- power failure at any point, whatever words of 8 bytes the cache wrote back early: persistent
  -- memory, which held `xs` with a count that may lag, is left with data that hold `xs`, or `xs`
  -- and the element, or `xs` and a pointer of the element's offset in no pool, or `xs` and a null
  -- slot with the element's pool, which the count does not include.
  pub push_back_elem-Crash :
      {e x : VectorData Oid}
      → Holds e xs
      → e.allocated_size ≡ d.allocated_size
      → Crash Halves
          (record { cache = d; durable = e })
          (push_back_elem p (record { now = d; events = [] })).1.events
          x
      → AfterFailure xs p x
  push_back_elem-Crash {e} k size crash =
      let same : e.elements ≡ d.elements = cc (k.layout, h.layout, size) in
      crash_lem (rw (push_back_elem_lem start h p room) at crash) (plan_of _ refl) (record {
        cache_slots = refl;
        durable_slots =
            (oid_null, refl, rw (set-get_self d.elements (length xs) oid_null free_slot) same);
        cache_count = h.counted;
        durable_count = k.counted;
        size = size;
      })
