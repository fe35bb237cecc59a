-- ===== src/Vector/Crash/Push.antt =====
-- The four events of a push: the slot is stored and flushed, then the count. At each stage, what
-- persistent memory can hold whatever the cache writes back early.
use native.Mathlib.Decide.{ℕ_discrete}
use pmem.Prelude.{
  ℕ, ◌≡◌, ◌≢◌, refl, ap, ◌∙◌, some, List, [], ◌∷◌, get_elem?, set, get_elem?-set-some,
  get_elem?-set_ne, set-get_self, set-set,
}
use pmem.Vector.Data.{VectorData, Event, store_elem, store_nelem, flush_elem, flush_nelem}
use pmem.Vector.Crash.{Tears, Views, run, Stable, Plan, done, next}

-- How far a push has come: before the slot is stored, after that, after it is flushed, after the
-- count is stored.
pub data Stage : Type 0 where
  idle stored flushed counted : Stage

-- What a slot may hold while `p` is on the way to the place of `old`.
pub record Tearing {A : Type 0} (T : Tears A) (old p : A) : Type 1 where
  pub Between : A → Type 0
  pub first : Between old
  pub last : Between p
  pub torn : (x z : A) → Between x → T x p z → Between z
  pub same : (x z : A) → T x x z → z ≡ x

module _ {A : Type 0} {T : Tears A} {old p : A} (w : Tearing T old p) where
  abbrev pub InSlot : Stage → A → Type 0
  InSlot idle z = z ≡ old
  InSlot stored z = w.Between z
  InSlot flushed z = z ≡ p
  InSlot counted z = z ≡ p

abbrev pub cached : {A : Type 0} → List A → ℕ → A → Stage → List A
cached l n p idle = l
cached l n p _ = set l n p

module _ {A : Type 0} {T : Tears A} {old p : A} (w : Tearing T old p) (l : List A) (n : ℕ)
    (at : get_elem? l n ≡ some old) where
  -- The slots, with what the slot of the push holds.
  abbrev pub Slots : Stage → List A → Type 0
  Slots st d = (z : A) × InSlot w st z × (d ≡ set l n z)

  there : (v : A) → get_elem? (set l n v) n ≡ some v
  there v = get_elem?-set-some l n old v at

  -- What is written back to the slot of the push.
  in_slot :
      (st : Stage) (z y c : A)
      → InSlot w st z
      → get_elem? (cached l n p st) n ≡ some y
      → T z y c
      → InSlot w st c
  in_slot idle z y c is_z is_y torn =
      let e : y ≡ z = cc (at, is_y, is_z) in w.same z c (rw e at torn) ∙ is_z
  in_slot stored z y c is_z is_y torn =
      let e : y ≡ p = cc (there p, is_y) in w.torn z c is_z (rw e at torn)
  in_slot flushed z y c is_z is_y torn =
      let e : y ≡ z = cc (there p, is_y, is_z) in w.same z c (rw e at torn) ∙ is_z
  in_slot counted z y c is_z is_y torn =
      let e : y ≡ z = cc (there p, is_y, is_z) in w.same z c (rw e at torn) ∙ is_z

  -- Away from that slot the cache and persistent memory agree.
  away : (st : Stage) (k : ℕ) → n ≢ k → get_elem? (cached l n p st) k ≡ get_elem? l k
  away idle k ne = refl
  away stored k ne = get_elem?-set_ne l n k p ne
  away flushed k ne = get_elem?-set_ne l n k p ne
  away counted k ne = get_elem?-set_ne l n k p ne

  write_back-Slots :
      (st : Stage) (k : ℕ) (d : List A) (x y c : A)
      → get_elem? d k ≡ some x
      → get_elem? (cached l n p st) k ≡ some y
      → T x y c
      → Slots st d
      → Slots st (set d k c)
  write_back-Slots st k d x y c is_x is_y torn (z, is_z, e) = elim (ℕ_discrete n k) [
    | yes here ↦
        let same_x : x ≡ z = cc (is_x, e, there z, here) in
        (
          c,
          in_slot st z y c is_z (ap (λ j. get_elem? (cached l n p st) j) here ∙ is_y)
              (rw same_x at torn),
          ap (λ d. set d k c) e ∙ (rw (← here) (set-set l n z c)),
        )
    | no ne ↦
        let same_x : get_elem? d k ≡ get_elem? l k =
          ap (λ d. get_elem? d k) e ∙ get_elem?-set_ne l n k z ne in
        let same_y : y ≡ x = cc (is_x, is_y, same_x, away st k ne) in
        let kept : c ≡ x = w.same x c (rw same_y at torn) in
        (z, is_z, rw kept (set-get_self d k x is_x) ∙ e)
  ]

-- What the count may be, before the new count is stored and after.
pub record Counts : Type 1 where
  pub Before : ℕ → Type 0
  pub After : ℕ → Type 0
  pub weaken : (k : ℕ) → Before k → After k

abbrev pub Count : Counts → Stage → ℕ → Type 0
Count c idle k = c.Before k
Count c stored k = c.Before k
Count c flushed k = c.Before k
Count c counted k = c.After k

-- The views during a push of `p` behind the first `n` of the slots `l`.
pub record During {A : Type 0} {T : Tears A} {old p : A} (w : Tearing T old p) (c : Counts)
    (l : List A) (n : ℕ) (at : get_elem? l n ≡ some old) (max_size : ℕ) (st : Stage) (v : Views A)
    : Type 0 where
  pub cache_slots : v.cache.elements ≡ cached l n p st
  pub durable_slots : Slots w l n at st v.durable.elements
  pub cache_count : Count c st v.cache.nelem
  pub durable_count : Count c st v.durable.nelem
  pub size : v.durable.allocated_size ≡ max_size

module _ {A : Type 0} {T : Tears A} {old p : A} (w : Tearing T old p) (c : Counts) (l : List A)
    (n : ℕ) (at : get_elem? l n ≡ some old) (max_size : ℕ) where
  -- `Good` holds of all that may stand in persistent memory at some stage.
  abbrev pub Covers : (VectorData A → Type 0) → Type 0
  Covers Good =
      (st : Stage) (x : VectorData A)
      → Slots w l n at st x.elements
      → Count c st x.nelem
      → x.allocated_size ≡ max_size
      → Good x

  module _ (Good : VectorData A → Type 0) (covers : Covers Good) where
    abbrev At : Stage → Views A → Type 0
    At st = During w c l n at max_size st

    At-Stable : (st : Stage) → Stable T Good (At st)
    At-Stable st = record {
      good = λ v i. covers st v.durable i.durable_slots i.durable_count i.size;
      keeps_elem = λ v k x y z is_x is_y torn i. record {
        cache_slots = i.cache_slots;
        durable_slots =
            write_back-Slots w l n at st k v.durable.elements x y z is_x (rw i.cache_slots at is_y)
              torn i.durable_slots;
        cache_count = i.cache_count;
        durable_count = i.durable_count;
        size = i.size;
      };
      keeps_nelem = λ v i. record {
        cache_slots = i.cache_slots;
        durable_slots = i.durable_slots;
        cache_count = i.cache_count;
        durable_count = i.cache_count;
        size = i.size;
      };
    }

    store_slot : (v : Views A) → At idle v → At stored (run (store_elem n p) v)
    store_slot v i = record {
      cache_slots = ap (λ l. set l n p) i.cache_slots;
      durable_slots =
          (let (z, is_z, e) = i.durable_slots in (old, w.first, e ∙ ap (λ z. set l n z) is_z));
      cache_count = i.cache_count;
      durable_count = i.durable_count;
      size = i.size;
    }

    flush_slot : (v : Views A) → At stored v → At flushed (run (flush_elem n) v)
    flush_slot v i = record {
      cache_slots = i.cache_slots;
      durable_slots =
          (let (z, is_z, e) = i.durable_slots in
            (
              p,
              refl,
              rw (i.cache_slots, there w l n at p) (ap (λ d. set d n p) e ∙ set-set l n z p),
            ));
      cache_count = i.cache_count;
      durable_count = i.durable_count;
      size = i.size;
    }

    store_count :
        (k : ℕ) → c.After k → (v : Views A) → At flushed v → At counted (run (store_nelem k) v)
    store_count k after v i = record {
      cache_slots = i.cache_slots;
      durable_slots = i.durable_slots;
      cache_count = after;
      durable_count = c.weaken _ i.durable_count;
      size = i.size;
    }

    -- The order slot, flush, count, flush is good at each point.
    pub push_plan :
        (k : ℕ)
        → c.After k
        → Plan T Good (store_elem n p ∷ flush_elem n ∷ store_nelem k ∷ flush_nelem ∷ []) (At idle)
    push_plan k after = next (At-Stable idle) store_slot (
        next (At-Stable stored) flush_slot (
          next (At-Stable flushed) (store_count k after)
            (next (At-Stable counted) (At-Stable counted).keeps_nelem (done (At-Stable counted)))))

    -- A count that is right already may be stored and flushed first.
    pub mended_plan :
        {es : List (Event A)} (k : ℕ)
        → c.Before k
        → Plan T Good es (At idle)
        → Plan T Good (store_nelem k ∷ flush_nelem ∷ es) (At idle)
    mended_plan k before plan =
        next (At-Stable idle)
          (λ v i. record {
            cache_slots = i.cache_slots;
            durable_slots = i.durable_slots;
            cache_count = before;
            durable_count = i.durable_count;
            size = i.size;
          })
          (next (At-Stable idle) (At-Stable idle).keeps_nelem plan)
