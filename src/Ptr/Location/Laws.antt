-- ===== src/Ptr/Location/Laws.antt =====
-- Reading and setting a pointer inside an object.
use pmem.Prelude.{◌≡◌, refl, ap, some, arith, set-get_self, set-set, get_elem?-set-some}
use pmem.Prelude.Result.{ok}
use pmem.Oid.{Oid}
use pmem.Memory.Objects.{Content, vector, node, root, Object, State}
use pmem.Memory.Access.{load, store, set_object}
use pmem.Ptr.Location.{
  Location, items, root_node, root_schema, slot, owner, member, set_member, read, write,
}

pub member-set_member :
    (l : Location) (q p : Oid) (c : Content)
    → member l c ≡ some q
    → member l (set_member l p c) ≡ some p
member-set_member (items a) q p (node n) e = refl
member-set_member (root_node a) q p (root r) e = refl
member-set_member (root_schema a) q p (root r) e = refl
member-set_member (slot a i) q p (vector d) e = get_elem?-set-some d.elements i q p e
member-set_member l q p c e = cc

pub set_member-set_member :
    (l : Location) (q p : Oid) (c : Content) → set_member l p (set_member l q c) ≡ set_member l p c
set_member-set_member (items a) q p (node n) = refl
set_member-set_member (root_node a) q p (root r) = refl
set_member-set_member (root_schema a) q p (root r) = refl
set_member-set_member (slot a i) q p (vector d) =
    ap (λ l. vector (record d { elements = l })) (set-set d.elements i q p)
set_member-set_member l q p c = refl

pub set_member_self :
    (l : Location) (q : Oid) (c : Content) → member l c ≡ some q → set_member l q c ≡ c
set_member_self (items a) q (node n) e = cc
set_member_self (root_node a) q (root r) e = cc
set_member_self (root_schema a) q (root r) e = cc
set_member_self (slot a i) q (vector d) e =
    ap (λ l. vector (record d { elements = l })) (set-get_self d.elements i q e)
set_member_self l q c e = cc

-- The owner with another value of the pointer.
abbrev pub pointing : Location → Oid → Object → Object
pointing l q own = record own { content = set_member l q own.content }

module _ (l : Location) (q : Oid) (s : State) (own : Object) (at : s.heap (owner l) ≡ some own)
    (is : member l own.content ≡ some q) where
  pub read_lem : read l s ≡ (ok q, s)
  unfolding read load
  read_lem = ground arith

  pub write_lem :
      (p : Oid) → write l p s ≡ (ok tt, set_object (owner l) (some (pointing l p own)) s)
  unfolding write load store
  write_lem p = ground arith
