-- ===== src/Tree/Root/Planted.antt =====
-- A root with a tree of nodes below it, or with none.
use pmem.Prelude.{
  ℕ, ◌≡◌, refl, ◌∙◌, Bool, true, false, Option, none, some, List, [], ◌∷◌, String, arith,
}
use pmem.Prelude.Result.{assertion_failed, Result, ok, err}
use pmem.Oid.{Oid, null}
use pmem.Memory.Objects.{root, TreeRoot, Object, State}
use pmem.Memory.Access.{set_object}
use pmem.PersistentVector.Standing.{update_self, update_ne}
use pmem.Tree.Schema.{StringDict, KeyType}
use pmem.Tree.Shape.{Tree, is_leaf, matches, insert, fresh}
use pmem.Tree.Rep.{Region, Rep}
use pmem.Tree.Rep.Alike.{AlikeObject, AlikeContent-refl, Rep-AlikeOn}
use pmem.Tree.Rep.Push.{ne_of_member}
use pmem.Ptr.Location.{root_node}
use pmem.Ptr.Location.Laws.{pointing}
use pmem.Tree.Rep.Grows.{Owned, Grows}

-- The object at `p` is the root `r`.
pub record RootNode (p : Oid) (r : TreeRoot) (s : State) : Type 0 where
  pub object : Object
  pub at : s.heap p ≡ some object
  pub is : object.content ≡ root r

-- The root at `p`, with its schema at `q`, has this tree.
abbrev pub Planted : (Oid → Type 0) → ℕ → Oid → Oid → Option Tree → State → Type 0
Planted H b p q none s = (r : TreeRoot) × RootNode p r s × (r.schema ≡ q) × (null r.node ≡ true)
Planted H b p q (some t) s =
    (r : TreeRoot) × RootNode p r s
    × (r.schema ≡ q)
    × (null r.node ≡ false)
    × (A : Region) × (A p ≡ false)
    × Owned A s
    × Rep H b s A r.node t
    × (is_leaf t ≡ false)

-- What an insertion means for a root: a first one makes the tree, whose top node has the first
-- key as its value.
abbrev pub plant : (String → Bool) → List ℕ → Option Tree → KeyType → Result Tree
plant fits blob none [] = err assertion_failed
plant fits blob none ((k, v) ∷ chain) = fresh fits k ((k, v) ∷ chain) blob
plant fits blob (some t) chain = insert fits chain blob t

abbrev pub with_chain : Result KeyType → (KeyType → Result Tree) → Result Tree
with_chain (ok chain) f = f chain
with_chain (err e) f = err e

-- What a lookup gives for a root.
abbrev pub matching : StringDict → Option Tree → List Tree
matching request none = []
matching request (some t) = matches request t

pub RootNode-Twin :
    {p : Oid} {r : TreeRoot} {s t : State} (k : RootNode p r s)
    → ((o : Object) × (t.heap p ≡ some o) × AlikeObject k.object o)
    → RootNode p r t
RootNode-Twin k (o, at, (typed, alike)) = record { object = o; at = at; is = rw k.is at alike }

-- A root outside of a region that grows.
pub RootNode-Grows :
    {p : Oid} {r : TreeRoot} {s t : State} {A B : Region} (k : RootNode p r s)
    → A p ≡ false
    → null p ≡ false
    → Grows s A t B
    → RootNode p r t
RootNode-Grows {p} k out alive h =
    RootNode-Twin k (h.frame p k.object (ground (arith, out, alive)) k.at)

-- The new tree's address is written to the root.
module _ {H : Oid → Type 0} {b : ℕ} {p q top : Oid} {t : Tree} {r : TreeRoot} {s : State}
    (k : RootNode p r s) (schema : r.schema ≡ q) (D : Region) (out : D p ≡ false)
    (owned : Owned D s) (rep : Rep H b s D top t) (alive : null top ≡ false)
    (inner : is_leaf t ≡ false) where
  abbrev pub rooted : State
  rooted = set_object p (some (pointing (root_node p) top k.object)) s

  beside : (x : Oid) (o : Object) → D x ≡ true → s.heap x ≡ some o → rooted.heap x ≡ some o
  beside x o found at =
      update_ne s.heap p x (some (pointing (root_node p) top k.object))
        (ne_of_member D x p found out)
      ∙ at

  pub rooted-Planted : Planted H b p q (some t) rooted
  rooted-Planted = (
    record r { node = top },
    record {
      object = pointing (root_node p) top k.object;
      at = update_self s.heap p (some (pointing (root_node p) top k.object));
      is = rw k.is refl;
    },
    schema,
    alive,
    D,
    out,
    λ x found. (let (o, at, live) = owned x found in (o, beside x o found at, live)),
    Rep-AlikeOn rep (omega arith)
        (λ x o found at. (o, beside x o found at, (refl, AlikeContent-refl o.content))),
    inner,
  )
