-- ===== src/Tree/Rep/Push.antt =====
-- A tree whose top node gets a sub-node: the vector may move to an address that was free.
use pmem.Prelude.{
  ℕ, ◌≡◌, refl, ap, ◌∙◌, ◌⊎◌, inl, inr, true, false, ◌||◌, none, some, List, [], ◌∷◌, ◌++◌, arith,
  Bool-cases, Option-cases,
}
use pmem.Oid.{Oid, null, oid_eq, oid_eq_iff, oid_eq_self}
use pmem.Memory.Objects.{Object, State}
use pmem.Ptr.Location.{items}
use pmem.PersistentVector.Standing.{Stored, Moved}
use pmem.Tree.Node.{data_type}
use pmem.Tree.Shape.{Tree, Trees, end, more}
use pmem.Tree.Rep.{Region, Within, Apart, Rep, Each, none_each, more_each}
use pmem.Tree.Rep.Alike.{AlikeContent-refl}
use pmem.Tree.Rep.Grows.{nowhere, swap, Owned, Grows}

abbrev pub single : Oid → Region
single p q = oid_eq q p

abbrev pub union : Region → Region → Region
union A B q = A q || B q

pub same_address : (A : Region) (p q : Oid) → oid_eq p q ≡ true → A p ≡ A q
same_address A p q same = ap A ((oid_eq_iff p q).0 same)

pub ne_of_member : (A : Region) (r q : Oid) → A r ≡ true → A q ≡ false → oid_eq r q ≡ false
ne_of_member A r q within out = elim (Bool-cases (oid_eq r q)) [
  | inl same ↦ absurd (cc (within, out, same_address A r q same))
  | inr ne ↦ ne
]

pub out_of_part : (A B : Region) (q : Oid) → Within B A → A q ≡ false → B q ≡ false
out_of_part A B q within out = elim (Bool-cases (B q)) [
  | inl here ↦ absurd (cc (within q here, out))
  | inr away ↦ away
]

-- The tree's last sub-node.
unfoldable pub snoc : Trees → Tree → Trees
snoc end t = more t end
snoc (more t' ts) t = more t' (snoc ts t)

pub Each-append :
    {H : Oid → Type 0} {b : ℕ} {s : State} {C D : Region} {xs : List Oid} {ts : Trees} {c : Oid}
    {t : Tree}
    → Each H b s C xs ts
    → Rep H b s D c t
    → Apart C D
    → Each H b s (union C D) (xs ++ c ∷ []) (snoc ts t)
unfolding snoc
Each-append {D} none_each rep apart =
    more_each D nowhere (λ q found. ground arith) (λ q found. absurd (cc found)) (λ q found. refl)
      rep none_each
Each-append {C} {D} (more_each F E in_f in_e apart' first rest) rep apart =
    more_each F (union E D) (λ q found. rw (in_f q found) refl)
      (λ q found. elim (Bool-cases (E q)) [
        | inl here ↦ rw (in_e q here) refl
        | inr away ↦ ground arith
      ])
      (λ q found. rw (apart' q found, apart q (in_f q found)) refl) first
      (Each-append rest rep (λ q found. apart q (in_e q found)))

-- The vector behind the items of `p` has moved from `q` to `q'`, or has stayed.
module _ {p q q' : Oid} {own : Object} {s t : State} (A : Region) (owned : Owned A s)
    (here : A p ≡ true) (was : (A q ≡ true) ⊎ (null q ≡ true)) (away : oid_eq p q ≡ false)
    (moved : Moved (items p) own q q' s t) {m : ℕ} {ys : List Oid}
    (k : Stored data_type m q' ys t) where
  new_address :
      (r : Oid) (o : Object) → s.heap r ≡ some o → oid_eq r q ≡ false → oid_eq r q' ≡ false
  new_address r o at ne = moved.outside r o at ne

  -- What lies in the region and is neither the node nor the vector.
  pub still_there :
      (r : Oid) (o : Object)
      → s.heap r ≡ some o
      → oid_eq r p ≡ false
      → oid_eq r q ≡ false
      → t.heap r ≡ some o
  still_there r o at ne ne' = moved.others r o at ne ne'

  pub moved_out : (B : Region) → Owned B s → B q ≡ false → B q' ≡ false
  moved_out B own_b out = elim (Bool-cases (B q')) [
    | inl found ↦
        let (o, at, alive) = own_b q' found in
        elim (Bool-cases (oid_eq q' q)) [
          | inl same ↦ absurd (cc (found, out, same_address B q' q same))
          | inr ne ↦ absurd (cc (new_address q' o at ne, oid_eq_self q'))
        ]
    | inr fine ↦ fine
  ]

  fresh_new : (s.heap q' ≡ none) ⊎ (A q' ≡ true)
  fresh_new = elim (Bool-cases (oid_eq q' q)) [
    | inl same ↦ elim was [
      | inl within ↦ inr (same_address A q' q same ∙ within)
      | inr is_null ↦ absurd (cc (k.alive, is_null, ap null ((oid_eq_iff q' q).0 same)))
    ]
    | inr ne ↦ elim (Option-cases (s.heap q')) [
      | inl free ↦ inl free
      | inr (o, at) ↦ absurd (cc (new_address q' o at ne, oid_eq_self q'))
    ]
  ]

  old_ne : (r : Oid) → A r ≡ false → null r ≡ false → oid_eq r q ≡ false
  old_ne r out alive = elim (Bool-cases (oid_eq r q)) [
    | inl same ↦ elim was [
      | inl within ↦ absurd (cc (within, out, same_address A r q same))
      | inr is_null ↦ absurd (cc (alive, is_null, ap null ((oid_eq_iff r q).0 same)))
    ]
    | inr ne ↦ ne
  ]

  node_ne : (r : Oid) → A r ≡ false → oid_eq r p ≡ false
  node_ne r out = elim (Bool-cases (oid_eq r p)) [
    | inl same ↦ absurd (cc (here, out, same_address A r p same))
    | inr ne ↦ ne
  ]

  pub push-Grows : Grows s A t (swap A (single q) (single q'))
  push-Grows = record {
    owned = λ r found. elim (Bool-cases (oid_eq r q')) [
      | inl new ↦
          let same = (oid_eq_iff r q').0 new in
          (k.object, ap t.heap same ∙ k.at, ap null same ∙ k.alive)
      | inr old ↦
          let (o, at, alive) = owned r (ground arith) in
          elim (Bool-cases (oid_eq r p)) [
            | inl same ↦ (_, ap t.heap ((oid_eq_iff r p).0 same) ∙ moved.owner_at, alive)
            | inr ne ↦ (o, still_there r o at ne (ground arith), alive)
          ]
    ];
    fresh = λ r found. elim (Bool-cases (oid_eq r q')) [
      | inl new ↦
          let same = (oid_eq_iff r q').0 new in
          elim fresh_new [
            | inl free ↦ inr (ap s.heap same ∙ free)
            | inr within ↦ inl (ap A same ∙ within)
          ]
      | inr old ↦ inl (ground arith)
    ];
    frame = λ r o out at.
        let out' : A r ≡ false = ground arith in
        let alive : null r ≡ false = ground arith in
        (
          o,
          still_there r o at (node_ne r out') (old_ne r out' alive),
          (refl, AlikeContent-refl o.content),
        );
    opened = moved.opened;
    registry = moved.registry;
  }
