-- ===== src/PersistentVector/PushData.antt =====
-- `push_back` of `PersistentVectorData`: the new element is allocated in the slot at the count.
use pmem.Prelude.{
  ℕ, ◌+◌, ◌%◌, ◌≡◌, ◌<◌, refl, ◌∙◌, false, some, List, [], ◌∷◌, ◌++◌, arith, ◌==◌, length,
  length-append, set, get_elem?, get_elem?-set-some, word,
}
use pmem.Prelude.Result.{Error, allocation_error, ok}
use pmem.Oid.{Oid, oid_null, null, oid_eq}
use pmem.Vector.Data.{VectorData, Image, Event}
use pmem.Vector.Data
use pmem.Vector.Pointer.{free_slot, count_one}
use pmem.Vector.Pointer.Holds.{Holds, Settled, get-free}
use pmem.Vector.Pointer.Check.{mended, mended-Settled, mended-size, free_slot_lem}
use pmem.Vector.Pointer.Push.{appended-Settled}
use pmem.Memory.Objects.{vector, Object, State}
use pmem.Memory.Access.{set_object, with_vector, on_vector, on_vector_lem, ◌>>◌}
use pmem.Memory.Ends
use pmem.Memory.Ends.{Ends, returns, throws}
use pmem.Memory.Pmemobj.{Pmemobj, inside}
use pmem.Ptr.Constructor.{AtomicConstructor}
use pmem.Ptr.Location.{slot}
use pmem.Ptr.Location.Laws.{pointing}
use pmem.Ptr.Pointer.Allocate.{Makes, Placed, allocate_at-Ends}
use pmem.PersistentVector.{push_back_data}
use pmem.PersistentVector.Standing.{Stored, update_self, update_ne}
use pmem.PersistentVector.Steps.{start_of}

element_read :
    (d : VectorData Oid) (i : ℕ) (p : Oid)
    → get_elem? d.elements i ≡ some p
    → Data.element i (record { now = d; events = [] }) ≡ (ok p, record { now = d; events = [] })
unfolding Data.element
element_read d i p e = ground arith

module _ {type_id n : ℕ} {oid : Oid} {xs : List Oid} {s : State} (k : Stored type_id n oid xs s)
    (room : length xs < n) where
  -- The image, the object and the state once the count is mended.
  abbrev image : Image Oid
  image = mended (length xs) (start_of k)

  abbrev pub own : Object
  own = record k.object { content = vector image.now }

  abbrev pub checked : State
  checked = with_vector oid k.object image.now image.events s

  settled : Settled image.now xs
  settled = mended-Settled (start_of k) k.holds

  roomy : length xs < image.now.allocated_size
  roomy = omega (arith, mended-size (start_of k) k.holds, k.capacity)

  free_slot_now : on_vector oid free_slot s ≡ (ok (length xs), checked)
  free_slot_now =
      let full : (length xs == k.vec.allocated_size) ≡ false = ground (arith, k.capacity) in
      rw (on_vector_lem oid free_slot k.object k.vec s k.at k.is)
        (rw (free_slot_lem (start_of k) k.holds) (rw full refl))

  -- The data with the new element, before it is counted and after.
  abbrev filled : Oid → VectorData Oid
  filled p = record image.now { elements = set image.now.elements (length xs) p }

  abbrev counted : Oid → VectorData Oid
  counted p = record (filled p) { nelem = (image.now.nelem + 1) % word }

  counted-Holds : (p : Oid) → null p ≡ false → Holds (counted p) (xs ++ p ∷ [])
  counted-Holds p alive =
      let new = appended-Settled settled.holds p alive roomy in
      record {
        live = new.live;
        layout = new.layout;
        fits = new.fits;
        counted =
            omega (arith, settled.exact, roomy, settled.holds.in_word, length-append xs (p ∷ []));
        in_word = new.in_word;
      }

  abbrev placed_at : Oid → State → State
  placed_at p v = set_object oid (some (pointing (slot oid (length xs)) p own)) v

  abbrev slot_object : Oid → Object
  slot_object p = pointing (slot oid (length xs)) p own

  abbrev count_events : List (Event Oid)
  count_events = Data.store_nelem ((image.now.nelem + 1) % word) ∷ Data.flush_nelem ∷ []

  abbrev counted_at : Oid → State → State
  counted_at p v = with_vector oid (slot_object p) (counted p) count_events (placed_at p v)

  abbrev read_at : Oid → State → State
  read_at p v =
      with_vector oid (record own { content = vector (counted p) }) (counted p) [] (counted_at p v)

  slot_filled : (p : Oid) → get_elem? (counted p).elements (length xs) ≡ some p
  slot_filled p =
      get_elem?-set-some image.now.elements (length xs) oid_null p (get-free settled.holds roomy)

  read_at-Stored :
      (p : Oid) (v : State) → null p ≡ false → Stored type_id n oid (xs ++ p ∷ []) (read_at p v)
  read_at-Stored p v alive = record {
    object = record own { content = vector (counted p) };
    vec = counted p;
    at = update_self _ _ _;
    typed = k.typed;
    is = refl;
    holds = counted-Holds p alive;
    capacity = mended-size (start_of k) k.holds ∙ k.capacity;
    some_room = k.some_room;
    alive = k.alive;
  }

  -- The element's slot is set; it is counted and read.
  count_now :
      (p : Oid) (v : State)
      → (on_vector oid count_one >> on_vector oid (Data.element (length xs))) (placed_at p v)
        ≡ (ok p, read_at p v)
  unfolding count_one Data.update_nelem
  count_now p v =
      rw
        (on_vector_lem oid count_one (slot_object p) (filled p) (placed_at p v) (update_self _ _ _)
          refl)
        (rw
          (on_vector_lem oid (Data.element (length xs))
            (record own { content = vector (counted p) }) (counted p) (counted_at p v)
            (update_self _ _ _) refl)
          (rw (element_read (counted p) (length xs) p (slot_filled p)) refl))

  away : (p : Oid) (v : State) (q : Oid) → oid_eq q oid ≡ false → (read_at p v).heap q ≡ v.heap q
  away p v q ne = update_ne _ oid q _ ne ∙ update_ne _ oid q _ ne ∙ update_ne _ oid q _ ne

  module _ (lib : Pmemobj) (mapped : (lib.pool_by_ptr (inside oid) s.opened == 0) ≡ false)
      (c : AtomicConstructor) (P : Oid → State → Type 0) (E : Error → State → Type 0)
      (fails : E allocation_error checked)
      (makes : Makes lib
        (lib.pool_by_ptr (inside oid) s.opened)
        c
        checked
        (λ p t. P p t × (t.heap oid ≡ some own))
        E) where
    -- For data in an open pool that hold `xs` in more slots than that, whose count may lag, and a
    -- constructor that ensures `P` and leaves the data alone: `push_back` ends with the address
    -- of a new object, free before, that was made in a state with `P`; the data then hold `xs`
    -- and that address, and away from the data memory is as the constructor left it. Or it
    -- throws, in a state with what is known of a failure.
    pub push_back_data-Ends :
        Ends
          (λ p w.
            (v : State) × Placed checked P p v
            × Stored type_id n oid (xs ++ p ∷ []) w
            × ((q : Oid) → oid_eq q oid ≡ false → w.heap q ≡ v.heap q))
          E
          (push_back_data lib type_id oid c s)
    unfolding push_back_data
    push_back_data-Ends = rw free_slot_now (
        Ends.bind _
          (allocate_at-Ends lib (slot oid (length xs)) checked (update_self _ _ _)
            (get-free settled.holds roomy) mapped c P E refl fails makes)
          λ a t (p, v, placed, is). rw is (
            rw (count_now p v)
              (returns (v, placed, read_at-Stored p v placed.1, λ q ne. away p v q ne))))
