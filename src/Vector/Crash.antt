-- ===== src/Vector/Crash.antt =====
-- Power failures. A store reaches persistent memory when it is flushed, or earlier, since the
-- cache may write a location back at any time; what has not arrived when the power goes is lost.
pub mod Push
use pmem.Prelude.{ℕ, ◌≡◌, Option, none, some, List, [], ◌∷◌, get_elem?, set}
use pmem.Vector.Data.{VectorData, Event, store_elem, store_nelem, flush_elem, flush_nelem, apply}

-- The data as the processor sees them, and as persistent memory holds them.
pub record Views (A : Type 0) : Type 0 where
  pub cache : VectorData A
  pub durable : VectorData A

module _ {A : Type 0} where
  abbrev pub put : Option A → ℕ → List A → List A
  put none i slots = slots
  put (some v) i slots = set slots i v

  -- What an event does to persistent memory, given the processor's view.
  abbrev pub write_back : Event A → VectorData A → VectorData A → VectorData A
  write_back (store_elem i v) cache durable = durable
  write_back (store_nelem n) cache durable = durable
  write_back (flush_elem i) cache durable = record durable {
    elements = put (get_elem? cache.elements i) i durable.elements;
  }
  write_back flush_nelem cache durable = record durable { nelem = cache.nelem }

  abbrev pub run : Event A → Views A → Views A
  run e v = record { cache = apply e v.cache; durable = write_back e v.cache v.durable }

-- What a slot of persistent memory may hold, which held the first value, when the cache, which holds
-- the second one, was writing it back as the power failed.
abbrev pub Tears : Type 0 → Type 1
Tears A = A → A → A → Type 0

abbrev pub evicted : {A : Type 0} → ℕ → A → Views A → Views A
evicted i z v = record v { durable = record v.durable { elements = set v.durable.elements i z } }

-- `Crash T v es d`: the events `es` were to be made from `v`, the power failed at some point, and
-- persistent memory was left with `d`. A count is written back as a whole, since it is 8 bytes. A
-- slot may be larger, and then a part of it may arrive and the rest may not.
-- That is also what is left of a store that the failure cuts short between two words.
pub data Crash {A : Type 0} (T : Tears A) : Views A → List (Event A) → VectorData A → Type 0 where
  power_off :
      {v : Views A} {es : List (Event A)} {d : VectorData A} → d ≡ v.durable → Crash T v es d
  step :
      {v : Views A} {e : Event A} {es : List (Event A)} {d : VectorData A}
      → Crash T (run e v) es d
      → Crash T v (e ∷ es) d
  evict_elem :
      {v : Views A} {es : List (Event A)} {d : VectorData A} (i : ℕ) (x y z : A)
      → get_elem? v.durable.elements i ≡ some x
      → get_elem? v.cache.elements i ≡ some y
      → T x y z
      → Crash T (evicted i z v) es d
      → Crash T v es d
  evict_nelem :
      {v : Views A} {es : List (Event A)} {d : VectorData A}
      → Crash T (run flush_nelem v) es d
      → Crash T v es d

-- A statement of the views that no write-back breaks, and that makes persistent memory good.
pub record Stable {A : Type 0} (T : Tears A) (Good : VectorData A → Type 0) (I : Views A → Type 0)
    : Type 0 where
  pub good : (v : Views A) → I v → Good v.durable
  pub keeps_elem :
      (v : Views A) (i : ℕ) (x y z : A)
      → get_elem? v.durable.elements i ≡ some x
      → get_elem? v.cache.elements i ≡ some y
      → T x y z
      → I v
      → I (evicted i z v)
  pub keeps_nelem : (v : Views A) → I v → I (run flush_nelem v)

-- A stable statement before each event and after the last.
pub data Plan {A : Type 0} (T : Tears A) (Good : VectorData A → Type 0)
    : List (Event A) → (Views A → Type 0) → Type 1 where
  done : {I : Views A → Type 0} → Stable T Good I → Plan T Good [] I
  next :
      {e : Event A} {es : List (Event A)} {I J : Views A → Type 0}
      → Stable T Good I
      → ((v : Views A) → I v → J (run e v))
      → Plan T Good es J
      → Plan T Good (e ∷ es) I

module _ {A : Type 0} {T : Tears A} {Good : VectorData A → Type 0} where
  stable : {es : List (Event A)} {I : Views A → Type 0} → Plan T Good es I → Stable T Good I
  stable (done s) = s
  stable (next s t p) = s

  -- With a plan, persistent memory is good whenever the power fails.
  pub crash_lem :
      {v : Views A} {es : List (Event A)} {d : VectorData A} {I : Views A → Type 0}
      → Crash T v es d
      → Plan T Good es I
      → I v
      → Good d
  crash_lem {v} (power_off e) p i = rw e ((stable p).good v i)
  crash_lem {v} (step c) (next s t p) i = crash_lem c p (t v i)
  crash_lem {v} (evict_elem k x y z is_x is_y torn c) p i =
      crash_lem c p ((stable p).keeps_elem v k x y z is_x is_y torn i)
  crash_lem {v} (evict_nelem c) p i = crash_lem c p ((stable p).keeps_nelem v i)
