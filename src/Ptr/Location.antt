-- ===== src/Ptr/Location.antt =====
-- The pointers that lie in persistent objects: where each is, how it is read and how it is set.
pub mod Laws
use pmem.Prelude.{ℕ, ◌≡◌, Option, none, some, get_elem?, set}
use pmem.Prelude.Result.{ok, err, fault}
use pmem.Oid.{Oid, oid_null}
use pmem.Vector.Data.{VectorData}
use pmem.Memory.Objects.{Content, uninit, buffer, vector, node, root, Object, State}
use pmem.Memory.Access.{M, pure, throw, load, store, ◌>>=◌}
use pmem.Memory.Pmemobj.{Place, inside}

-- The items of a node, the node and the schema of a root, a slot of a vector.
pub data Location : Type 0 where
  items : Oid → Location
  root_node : Oid → Location
  root_schema : Oid → Location
  slot : Oid → ℕ → Location

-- The object that the pointer is a part of.
abbrev pub owner : Location → Oid
owner (items p) = p
owner (root_node p) = p
owner (root_schema p) = p
owner (slot p i) = p

abbrev pub place : Location → Place
place l = inside (owner l)

-- The pointer's value in an object, if the object has such a member.
abbrev pub member : Location → Content → Option Oid
member (items p) (node n) = some n.items
member (root_node p) (root r) = some r.node
member (root_schema p) (root r) = some r.schema
member (slot p i) (vector d) = get_elem? d.elements i
member _ _ = none

abbrev pub set_member : Location → Oid → Content → Content
set_member (items p) q (node n) = node (record n { items = q })
set_member (root_node p) q (root r) = root (record r { node = q })
set_member (root_schema p) q (root r) = root (record r { schema = q })
set_member (slot p i) q (vector d) = vector (record d { elements = set d.elements i q })
set_member _ q c = c

-- `oid_`
unfoldable pub read : Location → M Oid
unfolding load
read l = do o ← load (owner l); elim (member l o.content) [ none ↦ throw fault | some q ↦ pure q ]

-- `oid_ = q`
unfoldable pub write : Location → Oid → M (Unit {0})
unfolding load store
write l q = do
  o ← load (owner l)
  elim (member l o.content) [
    | none ↦ throw fault
    | some _ ↦ store (owner l) (set_member l q o.content)
  ]
