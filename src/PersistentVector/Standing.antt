-- ===== src/PersistentVector/Standing.antt =====
-- A vector behind a pointer in a persistent object, and what a call that works on it leaves alone.
use pmem.Prelude.{
  Bool-cases, ℕ, ◌≡◌, ◌<◌, refl, ap, ◌∙◌, inl, inr, false, Option, none, some, List, [], arith,
}
use pmem.Prelude.Result.{ok}
use pmem.Oid.{Oid, null, oid_eq, oid_eq_iff, oid_eq_self}
use pmem.Vector.Data.{VectorData, Event, Method}
use pmem.Vector.Pointer.Holds.{Holds}
use pmem.Memory.Objects.{vector, Object, State}
use pmem.Memory.Access.{update, on_vector_lem, with_vector, load}
use pmem.Memory.Pmemobj.{Pmemobj}
use pmem.Ptr.Location.{Location, owner}
use pmem.Ptr.Location.Laws.{pointing, set_member-set_member}
use pmem.Ptr.Pointer.{get, valid}
use pmem.PersistentVector.{on_data}

-- The object at `oid` is the data of a vector that holds `xs` in `n` slots.
pub record Stored (type_id n : ℕ) (oid : Oid) (xs : List Oid) (s : State) : Type 0 where
  pub object : Object
  pub vec : VectorData Oid
  pub at : s.heap oid ≡ some object
  pub typed : object.type_num ≡ type_id
  pub is : object.content ≡ vector vec
  pub holds : Holds vec xs
  pub capacity : vec.allocated_size ≡ n
  pub some_room : 0 < n
  pub alive : null oid ≡ false

-- From `s` to `t` nothing has changed but the owner of the pointer, what the pointer led to at
-- first, and addresses that were free.
pub record Keeps (l : Location) (old : Oid) (s t : State) : Type 0 where
  pub others :
      (q : Oid) (o : Object)
      → s.heap q ≡ some o
      → oid_eq q (owner l) ≡ false
      → oid_eq q old ≡ false
      → t.heap q ≡ some o
  pub opened : t.opened ≡ s.opened
  pub registry : t.registry ≡ s.registry

-- At `t` the pointer, which was `old` at `s` with `own` around it, is `oid`.
pub record Moved (l : Location) (own : Object) (old oid : Oid) (s t : State) : Type 0 where
  pub keeps : Keeps l old s t
  pub open keeps use *
  pub owner_at : t.heap (owner l) ≡ some (pointing l oid own)
  pub apart : oid_eq (owner l) oid ≡ false
  pub outside :
      (q : Oid) (o : Object) → s.heap q ≡ some o → oid_eq q old ≡ false → oid_eq q oid ≡ false

-- The heap away from an update.
pub update_ne :
    (h : Oid → Option Object) (p q : Oid) (o : Option Object)
    → oid_eq q p ≡ false
    → update h p o q ≡ h q
unfolding update
update_ne h p q o e = ground arith

pub update_self : (h : Oid → Option Object) (p : Oid) (o : Option Object) → update h p o p ≡ o
unfolding update
update_self h p o = rw (oid_eq_self p)

pub oid_eq_comm : (p q : Oid) → oid_eq p q ≡ false → oid_eq q p ≡ false
oid_eq_comm p q e = ground arith

-- `get()` on an object of the right type.
pub get_lem :
    (lib : Pmemobj) (type_id : ℕ) (oid : Oid) (o : Object) (s : State)
    → s.heap oid ≡ some o
    → o.type_num ≡ type_id
    → get lib type_id oid s ≡ (ok o, s)
unfolding get load valid
get_lem lib type_id oid o s e f = ground (arith, lib.type_num_lem oid o s)

-- A method on data of the right type.
pub on_data_lem :
    {B : Type 0} (lib : Pmemobj) (type_id : ℕ) (oid : Oid) (m : Method Oid B) (o : Object)
    (d : VectorData Oid) (s : State)
    → s.heap oid ≡ some o
    → o.type_num ≡ type_id
    → o.content ≡ vector d
    → on_data lib type_id oid m s ≡ (
        let t = m (record { now = d; events = [] }) in
        (t.0, with_vector oid o t.1.now t.1.events s))
unfolding on_data get load valid
on_data_lem lib type_id oid m o d s e f c =
    ground (arith, lib.type_num_lem oid o s, on_vector_lem oid m o d s)

module _ {l : Location} {own : Object} {old oid : Oid} {s t : State}
    (h : Moved l own old oid s t) where
  pub Moved-with_vector :
      (o : Object) (d : VectorData Oid) (es : List (Event Oid))
      → Moved l own old oid s (with_vector oid o d es t)
  Moved-with_vector o d es = record {
    keeps = record {
      others =
          λ q p at ne away. update_ne _ oid q _ (h.outside q p at away) ∙ h.others q p at ne away;
      opened = h.opened;
      registry = h.registry;
    };
    owner_at = update_ne _ oid (owner l) _ h.apart ∙ h.owner_at;
    apart = h.apart;
    outside = h.outside;
  }

-- Nothing that stands in memory stands at a free address.
pub ne_of_free :
    (h : Oid → Option Object) (p q : Oid) (o : Object)
    → h p ≡ none
    → h q ≡ some o
    → oid_eq q p ≡ false
ne_of_free h p q o free at = elim (Bool-cases (oid_eq q p)) [
  | inl same ↦ cc (free, at, ap h ((oid_eq_iff q p).0 same))
  | inr ne ↦ ne
]

-- The pointer goes on to a free address `p`, and nothing else changes but what it led to.
module _ {l : Location} {own : Object} {old oid : Oid} {s t : State} (h : Moved l own old oid s t)
    (p : Oid) (free : t.heap p ≡ none) (v : State)
    (owner_v : v.heap (owner l) ≡ some (pointing l p (pointing l oid own)))
    (elsewhere : (q : Oid)
      → oid_eq q p ≡ false
      → oid_eq q oid ≡ false
      → oid_eq q (owner l) ≡ false
      → v.heap q ≡ t.heap q)
    (opened : v.opened ≡ t.opened) (registry : v.registry ≡ t.registry) where
  outside_new :
      (q : Oid) (o : Object) → s.heap q ≡ some o → oid_eq q old ≡ false → oid_eq q p ≡ false
  outside_new q o at away = elim (Bool-cases (oid_eq q (owner l))) [
    | inl same ↦
        rw ((oid_eq_iff q (owner l)).0 same) (ne_of_free t.heap p (owner l) _ free h.owner_at)
    | inr ne ↦ ne_of_free t.heap p q o free (h.others q o at ne away)
  ]

  pub Moved-to : Moved l own old p s v
  Moved-to = record {
    keeps = record {
      others = λ q o at ne away.
          elsewhere q (outside_new q o at away) (h.outside q o at away) ne
          ∙ h.others q o at ne away;
      opened = opened ∙ h.opened;
      registry = registry ∙ h.registry;
    };
    owner_at =
        owner_v
        ∙ ap (λ c. some (record own { content = c })) (set_member-set_member l oid p own.content);
    apart = ne_of_free t.heap p (owner l) _ free h.owner_at;
    outside = outside_new;
  }

pub Stored-with_vector :
    {type_id n : ℕ} {oid : Oid} {xs ys : List Oid} {t : State} (k : Stored type_id n oid xs t)
    (d : VectorData Oid) (es : List (Event Oid))
    → Holds d ys
    → d.allocated_size ≡ n
    → Stored type_id n oid ys (with_vector oid k.object d es t)
Stored-with_vector k d es h same = record {
  object = record k.object { content = vector d };
  vec = d;
  at = update_self _ _ _;
  typed = k.typed;
  is = refl;
  holds = h;
  capacity = same;
  some_room = k.some_room;
  alive = k.alive;
}
