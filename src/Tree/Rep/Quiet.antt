-- ===== src/Tree/Rep/Quiet.antt =====
-- Calls of a node's vector that only read: they leave every object alike.
use pmem.Prelude.{
  ℕ, zero, suc, ◌≡◌, refl, ap, sym, ◌∙◌, inl, inr, true, false, some, List, [], ◌∷◌, ◌++◌, length,
  get_elem?, replicate, ◌==◌, Bool-cases,
}
use pmem.Prelude.Result.{Error}
use pmem.Oid.{Oid, oid_null, null, oid_eq, oid_eq_iff}
use pmem.Vector.Data.{VectorData}
use pmem.Vector.Pointer.Holds.{Holds, AllLive}
use pmem.Memory.Objects.{vector, TreeNode, Object, State}
use pmem.Memory.Ends
use pmem.Memory.Ends.{Ends}
use pmem.Memory.Pmemobj.{Pmemobj, inside}
use pmem.Ptr.Location.{items, member}
use pmem.Ptr.Location.Laws.{set_member_self}
use pmem.PersistentVector
use pmem.PersistentVector.Standing.{Stored, Moved}
use pmem.PersistentVector.Steps.{size_now, element_now, allocated_now}
use pmem.PersistentVector.Push.{begin}
use pmem.Tree.Node.{data_type}
use pmem.Tree.Node.Add.Laws.{Node}
use pmem.Tree.Rep.{Region}
use pmem.Tree.Rep.Alike.{
  AlikeContent, AlikeOn, AlikeContent-refl, AlikeOn-refl, AlikeOn-trans, AlikeOn-Within, Node-Twin,
  Stored-Twin,
}

abbrev pub everywhere : Region
everywhere q = true

-- All objects are alike, and the same pools are open and registered.
pub record Quiet (s t : State) : Type 0 where
  pub alike : AlikeOn everywhere s t
  pub opened : t.opened ≡ s.opened
  pub registry : t.registry ≡ s.registry

pub Quiet-refl : (s : State) → Quiet s s
Quiet-refl s = record { alike = AlikeOn-refl everywhere s; opened = refl; registry = refl }

pub Quiet-trans : {s t u : State} → Quiet s t → Quiet t u → Quiet s u
Quiet-trans {s} {t} {u} h k = record {
  alike = AlikeOn-trans s t u h.alike k.alike;
  opened = k.opened ∙ h.opened;
  registry = k.registry ∙ h.registry;
}

pub Quiet-AlikeOn : {s t : State} (A : Region) → Quiet s t → AlikeOn A s t
Quiet-AlikeOn {s} {t} A h = AlikeOn-Within s t (λ q found. refl) h.alike

-- Live pointers in front of null slots are found in one way only.
same_front :
    (xs ys : List Oid) (m n : ℕ)
    → AllLive xs
    → AllLive ys
    → xs ++ replicate m oid_null ≡ ys ++ replicate n oid_null
    → xs ≡ ys
same_front [] [] m n live live' e = refl
same_front [] (y ∷ ys) zero n live live' e = absurd (cc e)
same_front [] (y ∷ ys) (suc m) n live live' e = absurd (cc (ap null (ap head_of (sym e)), live'.0))
  where
    head_of : List Oid → Oid
    head_of [] = oid_null
    head_of (x ∷ xs) = x
same_front (x ∷ xs) [] m zero live live' e = absurd (cc e)
same_front (x ∷ xs) [] m (suc n) live live' e = absurd (cc (e, live.0))
same_front (x ∷ xs) (y ∷ ys) m n live live' e = cc (e, same_front xs ys m n live.1 live'.1 (cc e))

pub Holds-unique : {d : VectorData Oid} {xs ys : List Oid} → Holds d xs → Holds d ys → xs ≡ ys
Holds-unique {xs} {ys} h k = same_front xs ys _ _ h.live k.live (sym h.layout ∙ k.layout)

Stored-AlikeContent :
    {m : ℕ} {q : Oid} {xs : List Oid} {s t : State} (h : Stored data_type m q xs s)
    (k : Stored data_type m q xs t)
    → AlikeContent (vector h.vec) k.object.content
Stored-AlikeContent h k =
    (k.vec, k.is, k.capacity ∙ sym h.capacity, λ ys held. rw (Holds-unique held h.holds) k.holds)

module _ {p : Oid} {own : Object} {q : Oid} {s t : State} {m : ℕ} {xs : List Oid}
    (at : s.heap p ≡ some own) (has : member (items p) own.content ≡ some q)
    (k : Stored data_type m q xs s) (moved : Moved (items p) own q q s t)
    (k' : Stored data_type m q xs t) where
  alike_now : AlikeOn everywhere s t
  alike_now r o found is = elim (Bool-cases (oid_eq r p)) [
    | inl same ↦
        let here = (oid_eq_iff r p).0 same in
        (
          o,
          rw here moved.owner_at
              ∙ ap some (
                  ap (λ c. record own { content = c }) (set_member_self (items p) q own.content has)
                  ∙ cc (at, is, ap s.heap here)),
          (refl, AlikeContent-refl o.content),
        )
    | inr ne ↦ elim (Bool-cases (oid_eq r q)) [
      | inl same ↦
          let here = (oid_eq_iff r q).0 same in
          let it : o ≡ k.object = cc (k.at, is, ap s.heap here) in
          (
            k'.object,
            ap t.heap here ∙ k'.at,
            (
              k'.typed ∙ sym k.typed ∙ ap (λ x. x.type_num) (sym it),
              rw (it, k.is) (Stored-AlikeContent k k'),
            ),
          )
      | inr away ↦ (o, moved.others r o is ne away, (refl, AlikeContent-refl o.content))
    ]
  ]

  pub moved-Quiet : Quiet s t
  moved-Quiet = record { alike = alike_now; opened = moved.opened; registry = moved.registry }

-- A node with its vector.
pub record Ready (os : List ℕ) (p : Oid) (n : TreeNode) (m : ℕ) (xs : List Oid) (s : State)
    : Type 0 where
  pub here : Node p n s
  pub stored : Stored data_type m n.items xs s
  pub opened : s.opened ≡ os

pub Ready-Quiet :
    {os : List ℕ} {p : Oid} {n : TreeNode} {m : ℕ} {xs : List Oid} {s t : State}
    → Ready os p n m xs s
    → Quiet s t
    → Ready os p n m xs t
Ready-Quiet {p} {n} r h = record {
  here = Node-Twin r.here (h.alike p r.here.object refl r.here.at);
  stored = Stored-Twin r.stored (h.alike n.items r.stored.object refl r.stored.at);
  opened = h.opened ∙ r.opened;
}

module _ (lib : Pmemobj) {os : List ℕ} {p : Oid} {n : TreeNode} {m : ℕ} {xs : List Oid} {s : State}
    (apart : oid_eq p n.items ≡ false) (mapped : (lib.pool_by_ptr (inside p) os == 0) ≡ false)
    (r : Ready os p n m xs s) where
  has : member (items p) r.here.object.content ≡ some n.items
  has = rw r.here.is refl

  mapped_now : (lib.pool_by_ptr (inside p) s.opened == 0) ≡ false
  mapped_now = rw r.opened mapped

  start : Moved (items p) r.here.object n.items n.items s s
  start = begin lib data_type (items p) r.here.object n.items s r.here.at has apart mapped_now

  pub size-Quiet :
      {E : Error → State → Type 0}
      → Ends
          (λ sz t. (sz ≡ length xs) × Quiet s t)
          E
          (PersistentVector.size lib data_type (items p) s)
  size-Quiet =
      Ends.mono
        (size_now lib data_type (items p) r.here.object n.items has n.items s mapped_now start
          r.stored)
        (λ sz t (is, moved, k). (is, moved-Quiet r.here.at has r.stored moved k)) (λ e t h. h)

  pub allocated-Quiet :
      {E : Error → State → Type 0}
      → Ends
          (λ slots t. (slots ≡ m) × Quiet s t)
          E
          (PersistentVector.allocated_size lib data_type (items p) s)
  allocated-Quiet =
      Ends.mono
        (allocated_now lib data_type (items p) r.here.object n.items has n.items s mapped_now start
          r.stored)
        (λ sz t (is, moved, k). (is, moved-Quiet r.here.at has r.stored moved k)) (λ e t h. h)

  pub element-Quiet :
      {E : Error → State → Type 0} (i : ℕ) (c : Oid)
      → get_elem? xs i ≡ some c
      → Ends (λ d t. (d ≡ c) × Quiet s t) E (PersistentVector.element lib data_type (items p) i s)
  element-Quiet i c is =
      Ends.mono
        (element_now lib data_type (items p) r.here.object n.items has n.items s mapped_now start
          r.stored i c is)
        (λ sz t (it, moved, k). (it, moved-Quiet r.here.at has r.stored moved k)) (λ e t h. h)
