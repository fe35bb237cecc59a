-- ===== src/Vector/Pod/Crash.antt =====
-- Power failures in the middle of `push_back` of `PersistentPODVectorData`.
use pmem.Prelude.{
  ℕ, ◌+◌, ◌<◌, ◌≡◌, refl, ap, ◌∙◌, some, get_elem?, get_elem?-some, set-get_self, ◌⊎◌, inl, inr,
  List, [], ◌∷◌, ◌++◌, arith, set, length, length-set, take-set_ge,
}
use pmem.Vector.Data.{VectorData}
use pmem.Vector.Crash.{Tears, Crash, crash_lem}
use pmem.Vector.Crash.Push.{Tearing, idle, stored, flushed, counted, Counts, Covers, push_plan}
use pmem.Vector.Pod.{push_back}
use pmem.Vector.Pod.Holds.{Holds, appended-Holds, push_back_lem}

abbrev exact_or_next : ℕ → Counts
exact_or_next n = record {
  Before = λ k. k ≡ n;
  After = λ k. (k ≡ n) ⊎ (k ≡ n + 1);
  weaken = λ k h. inl h;
}

abbrev pub BeforeOrAfter : {A : Type 0} → List A → A → VectorData A → Type 0
BeforeOrAfter xs v d = Holds d xs ⊎ Holds d (xs ++ v ∷ [])

-- A value that is written back may be torn in any way; one that has not changed stays.
abbrev pub AnyTear : {A : Type 0} → Tears A
AnyTear x y z = x ≡ y → z ≡ x

any-Tearing : {A : Type 0} (old v : A) → Tearing AnyTear old v
any-Tearing old v = record {
  Between = λ z. Unit {0};
  first = tt;
  last = tt;
  torn = λ x z between h. tt;
  same = λ x z h. h refl;
}

module _ {A : Type 0} {d : VectorData A} {xs : List A} (h : Holds d xs) (v : A)
    (room : length xs < d.allocated_size) where
  old :
      (x : VectorData A) (z : A)
      → x.elements ≡ set d.elements (length xs) z
      → x.nelem ≡ length xs
      → x.allocated_size ≡ d.allocated_size
      → Holds x xs
  old x z e count size = record {
    layout = ground (arith, h.layout, h.exact, take-set_ge d.elements (length xs) (length xs) z);
    exact = count;
    fits = omega (arith, h.fits);
    slots = ground (arith, h.slots, length-set d.elements (length xs) z);
    in_word = omega (arith, h.in_word);
  }

  fresh :
      (x : VectorData A)
      → x.elements ≡ set d.elements (length xs) v
      → x.nelem ≡ length xs + 1
      → x.allocated_size ≡ d.allocated_size
      → Holds x (xs ++ v ∷ [])
  fresh x e count size =
      let new = appended-Holds h v room in
      record {
        layout = ground (arith, new.layout);
        exact = ground (arith, new.exact);
        fits = ground (arith, new.fits);
        slots = ground (arith, new.slots);
        in_word = ground (arith, new.in_word);
      }

  -- What the memory held in the slot of the push.
  raw : (a : A) × (get_elem? d.elements (length xs) ≡ some a)
  raw = get_elem?-some d.elements (length xs) (omega (arith, h.slots, room))

  abbrev tear : Tearing AnyTear raw.0 v
  tear = any-Tearing raw.0 v

  covers :
      Covers tear
        (exact_or_next (length xs))
        d.elements
        (length xs)
        raw.1
        d.allocated_size
        (BeforeOrAfter xs v)
  covers idle x (z, is, e) count size = inl (old x z e count size)
  covers stored x (z, is, e) count size = inl (old x z e count size)
  covers flushed x (z, is, e) count size = inl (old x z e count size)
  covers counted x (z, is, e) (inl count) size = inl (old x z e count size)
  covers counted x (z, is, e) (inr count) size =
      inr (fresh x (e ∙ ap (λ z. set d.elements (length xs) z) is) count size)

  -- A push of a value, into data with a free slot, that is cut short by a power failure at any
  -- point, whatever the cache wrote back early, and however a write-back of the value was torn:
  -- persistent memory, which agreed with the cache, is left with data that hold `xs` or `xs` and
  -- the value, with the count that belongs to them.
  pub push_back-Crash :
      {x : VectorData A}
      → Crash AnyTear
          (record { cache = d; durable = d })
          (push_back v (record { now = d; events = [] })).1.events
          x
      → BeforeOrAfter xs v x
  push_back-Crash crash =
      crash_lem (rw (push_back_lem (record { now = d; events = [] }) h v room) at crash)
        (push_plan tear (exact_or_next (length xs)) _ _ raw.1 _ _ covers (length xs + 1) (inr refl))
        (record {
          cache_slots = refl;
          durable_slots = (raw.0, refl, rw (set-get_self d.elements (length xs) raw.0 raw.1) refl);
          cache_count = h.exact;
          durable_count = h.exact;
          size = refl;
        })
