-- ===== src/PersistentPodVector/Standing.antt =====
-- The values behind a pointer in a persistent object, and the methods that run on them.
use pmem.Prelude.{ℕ, ◌≡◌, ◌<◌, refl, ap, ◌∙◌, false, some, List, [], ◌∷◌, ◌++◌, arith, ◌==◌, length}
use pmem.Prelude.Result.{Error, ok}
use pmem.Oid.{Oid, null}
use pmem.Vector.Data.{VectorData, Event, Image, Method}
use pmem.Vector.Pod
use pmem.Vector.Pod.Holds.{Holds, size_lem, full_lem, push_back_lem, pushed, appended-Holds}
use pmem.Memory.Objects.{values, Object, State}
use pmem.Memory.Access.{load}
use pmem.Memory.Ends
use pmem.Memory.Ends.{Ends, returns, throws}
use pmem.Memory.Pmemobj.{Pmemobj}
use pmem.Ptr.Location.{Location, owner, member, read}
use pmem.Ptr.Location.Laws.{pointing, read_lem, member-set_member}
use pmem.Ptr.Pointer.{get, valid}
use pmem.PersistentVector.Standing.{update_self, update_ne, Moved}
use pmem.PersistentPodVector.{with_values, on_values, on_data, size}

-- The object at `oid` is the data of a vector of the values `xs` in `n` slots.
pub record Stored (type_id n : ℕ) (oid : Oid) (xs : List ℕ) (s : State) : Type 0 where
  pub object : Object
  pub vec : VectorData ℕ
  pub at : s.heap oid ≡ some object
  pub typed : object.type_num ≡ type_id
  pub is : object.content ≡ values vec
  pub holds : Holds vec xs
  pub capacity : vec.allocated_size ≡ n
  pub some_room : 0 < n
  pub alive : null oid ≡ false

abbrev pub start_of :
    {type_id n : ℕ} {oid : Oid} {xs : List ℕ} {t : State} → Stored type_id n oid xs t → Image ℕ
start_of k = record { now = k.vec; events = [] }

-- A method that is run on known values.
pub on_values_lem :
    {B : Type 0} (width : ℕ) (p : Oid) (m : Method ℕ B) (o : Object) (d : VectorData ℕ) (s : State)
    → s.heap p ≡ some o
    → o.content ≡ values d
    → on_values width p m s ≡ (
        let t = m (record { now = d; events = [] }) in
        (t.0, with_values width p o t.1.now t.1.events s))
unfolding on_values
on_values_lem width p m o d s e c = ground arith

pub on_data_lem :
    {B : Type 0} (lib : Pmemobj) (width type_id : ℕ) (memory : Oid → ℕ → List ℕ) (oid : Oid)
    (m : Method ℕ B) (o : Object) (d : VectorData ℕ) (s : State)
    → s.heap oid ≡ some o
    → o.type_num ≡ type_id
    → o.content ≡ values d
    → on_data lib width type_id memory oid m s ≡ (
        let t = m (record { now = d; events = [] }) in
        (t.0, with_values width oid o t.1.now t.1.events s))
unfolding on_data get load valid
on_data_lem lib width type_id memory oid m o d s e f c =
    ground (arith, lib.type_num_lem oid o s, on_values_lem width oid m o d s)

pub Moved-with_values :
    {l : Location} {own : Object} {old oid : Oid} {s t : State} (h : Moved l own old oid s t)
    (width : ℕ) (o : Object) (d : VectorData ℕ) (es : List (Event ℕ))
    → Moved l own old oid s (with_values width oid o d es t)
Moved-with_values {l} {oid} h width o d es = record {
  keeps = record {
    others =
        λ q p at ne away. update_ne _ oid q _ (h.outside q p at away) ∙ h.others q p at ne away;
    opened = h.opened;
    registry = h.registry;
  };
  owner_at = update_ne _ oid (owner l) _ h.apart ∙ h.owner_at;
  apart = h.apart;
  outside = h.outside;
}

pub Stored-with_values :
    {type_id n : ℕ} {oid : Oid} {xs ys : List ℕ} {t : State} (k : Stored type_id n oid xs t)
    (width : ℕ) (d : VectorData ℕ) (es : List (Event ℕ))
    → Holds d ys
    → d.allocated_size ≡ n
    → Stored type_id n oid ys (with_values width oid k.object d es t)
Stored-with_values k width d es h same = record {
  object = record k.object { content = values d };
  vec = d;
  at = update_self _ _ _;
  typed = k.typed;
  is = refl;
  holds = h;
  capacity = same;
  some_room = k.some_room;
  alive = k.alive;
}

module _ (lib : Pmemobj) (width type_id : ℕ) (memory : Oid → ℕ → List ℕ) (l : Location)
    (own : Object) (q0 : Oid) (has : member l own.content ≡ some q0) (old : Oid) (s : State) where
  pub read_now : {oid : Oid} {t : State} → Moved l own old oid s t → read l t ≡ (ok oid, t)
  read_now {oid} {t} moved =
      read_lem l oid t (pointing l oid own) moved.owner_at
        (member-set_member l q0 oid own.content has)

  pub method :
      {B : Type 0} {oid : Oid} {t : State} {n : ℕ} {xs ys : List ℕ} {E : Error → State → Type 0}
      (m : Method ℕ B) (moved : Moved l own old oid s t) (k : Stored type_id n oid xs t) (b : B)
      (img : Image ℕ)
      → m (start_of k) ≡ (ok b, img)
      → Holds img.now ys
      → img.now.allocated_size ≡ n
      → Ends
          (λ r u. (r ≡ b) × Moved l own old oid s u × Stored type_id n oid ys u)
          E
          (on_data lib width type_id memory oid m t)
  method {oid} {t} m moved k b img e holds same =
      rw (on_data_lem lib width type_id memory oid m k.object k.vec t k.at k.typed k.is) (
        rw e (
          returns (
            refl,
            Moved-with_values moved width k.object img.now img.events,
            Stored-with_values k width img.now img.events holds same,
          )))

  module _ {oid : Oid} {t : State} {n : ℕ} {xs : List ℕ} {E : Error → State → Type 0}
      (moved : Moved l own old oid s t) (k : Stored type_id n oid xs t) where
    pub size_now :
        Ends
          (λ r u. (r ≡ length xs) × Moved l own old oid s u × Stored type_id n oid xs u)
          E
          (size lib width type_id memory l t)
    unfolding size
    size_now = rw (read_now moved) (
        rw k.alive (
          method Pod.size moved k (length xs) (start_of k) (size_lem (start_of k) k.holds) k.holds
            k.capacity))

    pub full_now :
        Ends
          (λ r u. (r ≡ (length xs == n)) × Moved l own old oid s u × Stored type_id n oid xs u)
          E
          (on_data lib width type_id memory oid Pod.full t)
    full_now =
        method Pod.full moved k (length xs == n) (start_of k)
          (full_lem (start_of k) k.holds ∙ ap (λ c. (ok (length xs == c), start_of k)) k.capacity)
          k.holds k.capacity

    pub push_now :
        (v : ℕ)
        → length xs < n
        → Ends
            (λ _ u. Moved l own old oid s u × Stored type_id n oid (xs ++ v ∷ []) u)
            E
            (on_data lib width type_id memory oid (Pod.push_back v) t)
    push_now v room =
        let room' : length xs < k.vec.allocated_size = omega (arith, k.capacity) in
        Ends.mono
          (method (Pod.push_back v) moved k tt (pushed (length xs) v (start_of k))
            (push_back_lem (start_of k) k.holds v room') (appended-Holds k.holds v room')
            k.capacity)
          (λ r u (is, m, k'). (m, k')) (λ e u h. h)
