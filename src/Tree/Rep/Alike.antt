-- ===== src/Tree/Rep/Alike.antt =====
-- States in which the same trees stand: the objects are the same but for counts of vectors, which
-- may have been mended.
use pmem.Prelude.{ℕ, ◌≤◌, ◌≡◌, refl, ◌∙◌, true, some, List, arith}
use pmem.Oid.{Oid}
use pmem.Vector.Data.{VectorData}
use pmem.Vector.Pointer.Holds.{Holds}
use pmem.Memory.Objects.{
  Content, uninit, buffer, vector, values, node, root, TreeNode, Object, State,
}
use pmem.PersistentVector.Standing.{Stored}
use pmem.Tree.Node.{data_type}
use pmem.Tree.Node.Add.Laws.{Node}
use pmem.Tree.Shape.{Tree, Trees}
use pmem.Tree.Rep.{
  Region, Within, Blob, Rep, leaf_rep, inner_rep, Items, no_items, some_items, Each, none_each,
  more_each,
}

-- A vector's data hold what they held.
abbrev pub AlikeContent : Content → Content → Type 0
AlikeContent uninit c = c ≡ uninit
AlikeContent (buffer b) c = c ≡ buffer b
AlikeContent (vector d) c =
    (d' : VectorData Oid) × (c ≡ vector d')
    × (d'.allocated_size ≡ d.allocated_size)
    × ((xs : List Oid) → Holds d xs → Holds d' xs)
AlikeContent (values d) c = c ≡ values d
AlikeContent (node n) c = c ≡ node n
AlikeContent (root r) c = c ≡ root r

abbrev pub AlikeObject : Object → Object → Type 0
AlikeObject o o' = (o'.type_num ≡ o.type_num) × AlikeContent o.content o'.content

-- The objects in a region are alike.
abbrev pub AlikeOn : Region → State → State → Type 0
AlikeOn A s t =
    (q : Oid) (o : Object)
    → A q ≡ true
    → s.heap q ≡ some o
    → (o' : Object) × (t.heap q ≡ some o') × AlikeObject o o'

pub AlikeContent-refl : (c : Content) → AlikeContent c c
AlikeContent-refl uninit = refl
AlikeContent-refl (buffer b) = refl
AlikeContent-refl (vector d) = (d, refl, refl, λ xs h. h)
AlikeContent-refl (values d) = refl
AlikeContent-refl (node n) = refl
AlikeContent-refl (root r) = refl

pub AlikeContent-trans : (a b c : Content) → AlikeContent a b → AlikeContent b c → AlikeContent a c
AlikeContent-trans uninit b c h k = rw h at k
AlikeContent-trans (buffer x) b c h k = rw h at k
AlikeContent-trans (vector d) b c (d', is, size, f) k =
    let k' : AlikeContent (vector d') c = rw is at k in
    (k'.0, k'.1, k'.2 ∙ size, λ xs h. k'.3 xs (f xs h))
AlikeContent-trans (values d) b c h k = rw h at k
AlikeContent-trans (node n) b c h k = rw h at k
AlikeContent-trans (root r) b c h k = rw h at k

pub AlikeObject-trans :
    (o o' o'' : Object) → AlikeObject o o' → AlikeObject o' o'' → AlikeObject o o''
AlikeObject-trans o o' o'' (typed, alike) (typed', alike') =
    (typed' ∙ typed, AlikeContent-trans o.content o'.content o''.content alike alike')

pub AlikeOn-refl : (A : Region) (s : State) → AlikeOn A s s
AlikeOn-refl A s q o inside at = (o, at, (refl, AlikeContent-refl o.content))

pub AlikeOn-trans : {A : Region} (s t u : State) → AlikeOn A s t → AlikeOn A t u → AlikeOn A s u
AlikeOn-trans s t u h k q o inside at =
    let (o', at', same) = h q o inside at in
    let (o'', at'', same') = k q o' inside at' in (o'', at'', AlikeObject-trans o o' o'' same same')

-- What one object stands for, at the other state.
abbrev Twin : Object → Oid → State → Type 0
Twin o q t = (o' : Object) × (t.heap q ≡ some o') × AlikeObject o o'

pub Node-Twin :
    {c : Oid} {n : TreeNode} {s t : State} (k : Node c n s) → Twin k.object c t → Node c n t
Node-Twin k (o, at, (typed, alike)) = record {
  object = o;
  at = at;
  typed = typed ∙ k.typed;
  is = rw k.is at alike;
}

pub Blob-Twin :
    {q : Oid} {blob : List ℕ} {s t : State} (k : Blob q blob s) → Twin k.object q t → Blob q blob t
Blob-Twin k (o, at, (typed, alike)) = record {
  object = o;
  at = at;
  typed = typed ∙ k.typed;
  is = rw k.is at alike;
}

pub Stored-Twin :
    {m : ℕ} {q : Oid} {xs : List Oid} {s t : State} (k : Stored data_type m q xs s)
    → Twin k.object q t
    → Stored data_type m q xs t
Stored-Twin {xs} k (o, at, (typed, alike)) =
    let same : AlikeContent (vector k.vec) o.content = rw k.is at alike in
    record {
      object = o;
      vec = same.0;
      at = at;
      typed = typed ∙ k.typed;
      is = same.1;
      holds = same.3 xs k.holds;
      capacity = same.2 ∙ k.capacity;
      some_room = k.some_room;
      alive = k.alive;
    }

pub AlikeOn-Within : {A B : Region} (s t : State) → Within B A → AlikeOn A s t → AlikeOn B s t
AlikeOn-Within s t w h q o inside at = h q o (w q inside) at

-- Where the objects of a region are alike, the same trees lie in it.
mutual
  pub Rep-AlikeOn :
      {H : Oid → Type 0} {b b' : ℕ} {s u : State} {A : Region} {p : Oid} {t : Tree}
      → Rep H b s A p t
      → b ≤ b'
      → AlikeOn A s u
      → Rep H b' u A p t
  Rep-AlikeOn {s} {u} {p} (leaf_rep n here there nd val live blob) le h =
      leaf_rep n here there (Node-Twin nd (h p nd.object here nd.at)) val live
        (Blob-Twin blob (h n.payload blob.object there blob.at))
  Rep-AlikeOn {s} {u} {p} (inner_rep n B here within out nd val key is_null home below) le h =
      inner_rep n B here within out (Node-Twin nd (h p nd.object here nd.at)) val key is_null home
        (Items-AlikeOn below le (AlikeOn-Within s u within h))

  pub Items-AlikeOn :
      {H : Oid → Type 0} {b b' : ℕ} {s u : State} {B : Region} {q : Oid} {ts : Trees}
      → Items H b s B q ts
      → b ≤ b'
      → AlikeOn B s u
      → Items H b' u B q ts
  Items-AlikeOn (no_items is_null) le h = no_items is_null
  Items-AlikeOn {s} {u} {q} (some_items m xs C small here within out k each) le h =
      some_items m xs C (omega (arith, small, le)) here within out
        (Stored-Twin k (h q k.object here k.at))
        (Each-AlikeOn each le (AlikeOn-Within s u within h))

  pub Each-AlikeOn :
      {H : Oid → Type 0} {b b' : ℕ} {s u : State} {C : Region} {xs : List Oid} {ts : Trees}
      → Each H b s C xs ts
      → b ≤ b'
      → AlikeOn C s u
      → Each H b' u C xs ts
  Each-AlikeOn none_each le h = none_each
  Each-AlikeOn {s} {u} (more_each D E in_d in_e apart first rest) le h =
      more_each D E in_d in_e apart (Rep-AlikeOn first le (AlikeOn-Within s u in_d h))
        (Each-AlikeOn rest le (AlikeOn-Within s u in_e h))
