-- ===== src/Tree/Rep/Attach.antt =====
-- `push_back_elem` on the items of a tree's top node, with a tree of its own as the new sub-node.
use pmem.Prelude.{
  ℕ, ◌+◌, ◌*◌, ◌≤◌, ◌<◌, ◌≡◌, refl, ap, ◌⊎◌, inl, inr, true, false, some, arith, Bool-cases, word,
  ◌==◌,
}
use pmem.Prelude.Result.{Error, allocation_error}
use pmem.Oid.{Oid, null, oid_eq, oid_eq_iff}
use pmem.Memory.Objects.{TreeNode, State}
use pmem.Memory.Ends
use pmem.Memory.Ends.{Ends}
use pmem.Memory.Pmemobj.{Pmemobj, inside}
use pmem.Ptr.Location.{items, member}
use pmem.PersistentVector.{push_back_elem}
use pmem.PersistentVector.Push.{push_back_elem-Ends}
use pmem.Tree.Node.{data_type}
use pmem.Tree.Node.Add.Laws.{Node}
use pmem.Tree.Shape.{Tree, inner, Trees}
use pmem.Tree.Rep.{Region, Within, Apart, Rep, inner_rep, Items}
use pmem.Tree.Rep.Alike.{Rep-AlikeOn, Each-AlikeOn, AlikeOn-refl}
use pmem.Tree.Rep.Quiet.{Quiet-refl}
use pmem.Tree.Rep.Grows.{Owned, Grows, Quiet-Grows}
use pmem.Tree.Rep.Push.{union, snoc, Each-append, same_address, out_of_part}
use pmem.Tree.Rep.Rebuilt.{Opened, rebuilt, rebuilt-Grows}

pub union-Owned : (A D : Region) (s : State) → Owned A s → Owned D s → Owned (union A D) s
union-Owned A D s own own' q found = elim (Bool-cases (A q)) [
  | inl here ↦ own q here
  | inr away ↦ own' q (ground arith)
]

module _ (lib : Pmemobj) (H : Oid → Type 0) (b b' : ℕ) (s : State) (p : Oid) (n : TreeNode)
    (nd : Node p n s) (no_data : null n.payload ≡ true) (home : H p)
    (mapped : (lib.pool_by_ptr (inside p) s.opened == 0) ≡ false) (A B : Region) (owned : Owned A s)
    (here : A p ≡ true) (within : Within B A) (out : B p ≡ false) (ts : Trees)
    (below : Items H b s B n.items ts) (parts : Opened H b s B n.items ts) (le : b ≤ b')
    (twice : parts.slots * 2 ≤ b') (small : parts.slots * 32 + 16 < word) where
  away : oid_eq p n.items ≡ false
  away = elim (Bool-cases (oid_eq p n.items)) [
    | inl same ↦ elim parts.was [
      | inl in_b ↦ absurd (cc (in_b, out, same_address B p n.items same))
      | inr is_null ↦
          absurd (cc ((owned p here).2, is_null, ap null ((oid_eq_iff p n.items).0 same)))
    ]
    | inr ne ↦ ne
  ]

  was : (A n.items ≡ true) ⊎ (null n.items ≡ true)
  was = elim parts.was [ inl in_b ↦ inl (within n.items in_b) | inr is_null ↦ inr is_null ]

  region_out : parts.region p ≡ false
  region_out = out_of_part B parts.region p parts.within out

  -- The tree as it was, but for a vector that may be new.
  abbrev pub Kept : Error → State → Type 0
  Kept e u =
      (e ≡ allocation_error)
      × (A' : Region) × Rep H b' u A' p (inner n.value n.key ts)
      × Grows s A u A'

  module _ (c : Oid) (D : Region) (t : Tree) (rep : Rep H b' s D c t) (owned_d : Owned D s)
      (apart : Apart A D) where
    abbrev pub Attached : State → Type 0
    Attached u =
        (A' : Region) × Rep H b' u A' p (inner n.value n.key (snoc ts t)) × Grows s (union A D) u A'

    out_d : (q : Oid) → (A q ≡ true) ⊎ (null q ≡ true) → D q ≡ false
    out_d q (inl in_a) = apart q in_a
    out_d q (inr is_null) = elim (Bool-cases (D q)) [
      | inl found ↦ absurd (cc ((owned_d q found).2, is_null))
      | inr fine ↦ fine
    ]

    pub attach :
        null c ≡ false → Ends (λ _ u. Attached u) Kept (push_back_elem lib data_type (items p) c s)
    attach alive =
        let has : member (items p) nd.object.content ≡ some n.items = rw nd.is refl in
        let in_a : Within parts.region A = λ q found. within q (parts.within q found) in
        let all : Region = union parts.region D in
        Ends.mono
          (push_back_elem-Ends lib data_type (items p) nd.object n.items s nd.at has away mapped
            parts.elems parts.slots c parts.start alive parts.positive small)
          (λ _ u (m, at_most, (q', moved, k)).
            let owned_u = union-Owned A D s owned owned_d in
            let here_u : union A D p ≡ true = rw here refl in
            let was_u : (union A D n.items ≡ true) ⊎ (null n.items ≡ true) = elim was [
              | inl x ↦ inl (rw x refl)
              | inr x ↦ inr x
            ] in
            let w : Within all (union A D) = λ q found. elim (Bool-cases (parts.region q)) [
              | inl x ↦ rw (in_a q x) refl
              | inr x ↦ ground arith
            ] in
            let o_p : all p ≡ false = rw (region_out, apart p here) refl in
            let o_q : all n.items ≡ false = rw (parts.out, out_d n.items was) refl in
            (
              _,
              rebuilt nd no_data (union A D) owned_u here_u was_u away moved k all w o_p o_q home
                  (omega arith) (omega arith)
                  (Each-append (Each-AlikeOn parts.each le (AlikeOn-refl parts.region s)) rep
                    (λ q found. apart q (in_a q found))),
              rebuilt-Grows nd no_data (union A D) owned_u here_u was_u away moved k all w o_p o_q,
            ))
          (λ e u (is, h). elim h [
            | inl same ↦ rw same (
              is,
              A,
              Rep-AlikeOn (inner_rep n B here within out nd refl refl no_data home below)
                  (omega arith) (AlikeOn-refl A s),
              Quiet-Grows owned (Quiet-refl s),
            )
            | inr (m, at_most, (q', moved, k)) ↦ (
              is,
              _,
              rebuilt nd no_data A owned here was away moved k parts.region in_a region_out
                  parts.out home (omega arith) le parts.each,
              rebuilt-Grows nd no_data A owned here was away moved k parts.region in_a region_out
                  parts.out,
            )
          ])
