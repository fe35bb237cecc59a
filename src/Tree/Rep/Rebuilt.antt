-- ===== src/Tree/Rep/Rebuilt.antt =====
-- The tree after `push_back_elem` on the items of its top node.
use pmem.Prelude.{ℕ, ◌≤◌, ◌<◌, ◌≡◌, refl, ◌⊎◌, inl, inr, true, false, List, [], arith, Bool-cases}
use pmem.Oid.{Oid, null, oid_eq, oid_eq_self}
use pmem.Memory.Objects.{TreeNode, State}
use pmem.Ptr.Location.{items}
use pmem.Ptr.Location.Laws.{pointing}
use pmem.PersistentVector.Standing.{Stored, Moved}
use pmem.Tree.Node.{data_type}
use pmem.Tree.Node.Add.Laws.{Node}
use pmem.Tree.Shape.{inner, Trees, end}
use pmem.Tree.Rep.{Region, Within, Rep, inner_rep, Items, no_items, some_items, Each, none_each}
use pmem.Tree.Rep.Alike.{AlikeOn, AlikeContent-refl, Each-AlikeOn}
use pmem.Tree.Rep.Grows.{nowhere, nowhere-Within, swap, Owned, Grows}
use pmem.Tree.Rep.Push.{single, union, ne_of_member, still_there, moved_out, push-Grows}

-- What a node's items are.
pub record Opened (H : Oid → Type 0) (b : ℕ) (s : State) (B : Region) (q : Oid) (ts : Trees)
    : Type 0 where
  pub slots : ℕ
  pub elems : List Oid
  pub region : Region
  pub start : ((null q ≡ true) × (elems ≡ [])) ⊎ Stored data_type slots q elems s
  pub positive : 0 < slots
  pub small : slots ≤ b
  pub within : Within region B
  pub was : (B q ≡ true) ⊎ (null q ≡ true)
  pub out : region q ≡ false
  pub each : Each H b s region elems ts

-- A first vector has one slot.
abbrev pub none_yet :
    {H : Oid → Type 0} {b : ℕ} {s : State} {B : Region} {q : Oid}
    → 0 < b
    → null q ≡ true
    → Opened H b s B q end
none_yet {B} positive is_null = record {
  slots = 1;
  elems = [];
  region = nowhere;
  start = inl (is_null, refl);
  positive = omega arith;
  small = omega arith;
  within = nowhere-Within B;
  was = inr is_null;
  out = refl;
  each = none_each;
}

pub Items-Opened :
    {H : Oid → Type 0} {b : ℕ} {s : State} {B : Region} {q : Oid} {ts : Trees}
    → 0 < b
    → Items H b s B q ts
    → Opened H b s B q ts
Items-Opened positive (no_items is_null) = none_yet positive is_null
Items-Opened positive (some_items m xs C small here within out k each) = record {
  slots = m;
  elems = xs;
  region = C;
  start = inr k;
  positive = k.some_room;
  small = small;
  within = within;
  was = inl here;
  out = out;
  each = each;
}

module _ {p : Oid} {n : TreeNode} {s t : State} (nd : Node p n s) (no_data : null n.payload ≡ true)
    (A : Region) (owned : Owned A s) (here : A p ≡ true)
    (was : (A n.items ≡ true) ⊎ (null n.items ≡ true)) (away : oid_eq p n.items ≡ false) {q' : Oid}
    {m : ℕ} {ys : List Oid} (moved : Moved (items p) nd.object n.items q' s t)
    (k : Stored data_type m q' ys t) (C : Region) (within : Within C A) (out_p : C p ≡ false)
    (out_q : C n.items ≡ false) where
  region-Owned : Owned C s
  region-Owned r found = owned r (within r found)

  alike_c : AlikeOn C s t
  alike_c r o found at = (
    o,
    still_there A owned here was away moved k r o at (ne_of_member C r p found out_p)
        (ne_of_member C r n.items found out_q),
    (refl, AlikeContent-refl o.content),
  )

  node_now : Node p (record n { items = q' }) t
  node_now = record {
    object = pointing (items p) q' nd.object;
    at = moved.owner_at;
    typed = nd.typed;
    is = rw nd.is refl;
  }

  pub rebuilt :
      {H : Oid → Type 0} {b b' : ℕ} {us : Trees}
      → H p
      → m ≤ b'
      → b ≤ b'
      → Each H b s C ys us
      → Rep H b' t (swap A (single n.items) (single q')) p (inner n.value n.key us)
  rebuilt home small le each =
      inner_rep (record n { items = q' }) (union (single q') C) (rw away (ground arith))
        (λ r found. elim (Bool-cases (oid_eq r q')) [
          | inl new ↦ rw new refl
          | inr old ↦
              let inside_c : C r ≡ true = ground arith in
              ground (arith, within r inside_c, ne_of_member C r n.items inside_c out_q)
        ])
        (rw moved.apart out_p) node_now refl refl no_data home
        (some_items m ys C small (rw (oid_eq_self q') refl) (λ r found. rw found (ground arith))
          (moved_out A owned here was away moved k C region-Owned out_q) k
          (Each-AlikeOn each le alike_c))

  pub rebuilt-Grows : Grows s A t (swap A (single n.items) (single q'))
  rebuilt-Grows = push-Grows A owned here was away moved k
