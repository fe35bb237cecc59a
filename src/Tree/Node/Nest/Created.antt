-- ===== src/Tree/Node/Nest/Created.antt =====
-- What `allocateNested` makes: a tree of one leaf.
use pmem.Prelude.{
  drop, get_elem?-some, ℕ, zero, suc, ◌≤◌, ◌≡◌, refl, inl, inr, Bool, true, false, ◌&&◌, some, List,
  String, arith, Bool-cases, ◌==◌, length, get_elem?,
}
use pmem.Prelude.Result.{Error}
use pmem.Oid.{Oid, oid_null}
use pmem.Memory.Objects.{node, PersistentPool, State}
use pmem.Memory.Ends
use pmem.Memory.Ends.{Ends, returns, throws}
use pmem.Memory.Pmemobj.{Pmemobj}
use pmem.Ptr.Constructor.{passing}
use pmem.PersistentVector.Standing.{get_lem}
use pmem.Tree.Schema.{KeyType}
use pmem.Tree.Node.{node_type, sizeof_node, make_node, at_index, allocate_nested, nest}
use pmem.Text.PersistentBuffer
use pmem.Tree.Node.Create.{
  nowhere-Owned, make_node_lem, Home, Created, NotCreated, allocate_leaf-Created,
}
use pmem.Tree.Node.Nest.Above.{above}
use pmem.Tree.Node.Nest.{
  value_at, drop_pair, value_at_pair, drop_all, value_before_lem, all_fit_at, value_fits,
}
use pmem.Tree.Shape.{Tree, inner, end, more, nested, all_fit}
use pmem.Tree.Rep.Grows.{nowhere, nowhere-Within, Grows-trans, Grows-less, Quiet-Grows}
use pmem.Tree.Rep.Fresh.{allocate-New}

module _ (lib : Pmemobj) (fits : String → Bool) (empty_e : fits "" ≡ true) (pool : PersistentPool)
    (open_pool : (pool.handle == 0) ≡ false) (os : List ℕ) (b : ℕ) (room : 2 ≤ b) (s : State)
    (here : s.opened ≡ os) where
  module _ (value : String) (chain : KeyType) (fit : all_fit fits chain ≡ true → fits value ≡ true)
      (blob : List ℕ) (blob_room : PersistentBuffer.HasRoom lib.usable_size blob) where
    -- The tree above and below the first `i` pairs.
    abbrev part : ℕ → Tree
    part i = nested (value_at value chain i) (drop i chain) blob

    -- A failed assertion was on a key or a value of the chain.
    blame :
        (i : ℕ) (k w : String)
        → get_elem? chain i ≡ some (k, w)
        → i ≤ length chain
        → fits (value_at value chain i) && fits k ≡ false
        → all_fit fits chain ≡ false
    blame i k w at le no_e = elim (Bool-cases (all_fit fits chain)) [
      | inl yes_e ↦
          let (k_e, w_e) = all_fit_at fits chain i k w yes_e at in
          let v_e = value_fits fits value chain i (fit yes_e) yes_e le in
          absurd (cc (k_e, v_e, no_e))
      | inr no_e' ↦ no_e'
    ]

    blame_value :
        (i : ℕ)
        → i ≤ length chain
        → fits (value_at value chain i) ≡ false
        → all_fit fits chain ≡ false
    blame_value i le no_e = elim (Bool-cases (all_fit fits chain)) [
      | inl yes_e ↦ absurd (cc (value_fits fits value chain i (fit yes_e) yes_e le, no_e))
      | inr no_e' ↦ no_e'
    ]

    part-suc :
        (i : ℕ) (k w : String)
        → get_elem? chain i ≡ some (k, w)
        → inner (value_at value chain i) k (more (part (suc i)) end) ≡ part i
    unfolding nested
    part-suc i k w at = rw (drop_pair chain i (k, w) at, value_at_pair value chain i k w at) refl

    at_index-Ends :
        {E : Error → State → Type 0} (i : ℕ) (e : String × String) (t : State)
        → get_elem? chain i ≡ some e
        → Ends (λ r u. (r ≡ e) × (u ≡ t)) E (at_index lib fits chain i t)
    at_index-Ends i e t at = rw (at_index, at) (returns (refl, refl))

    abbrev Nested : ℕ → Oid → State → Type 0
    Nested i c t =
        Ends
          (λ q u.
            Created (Home lib pool os) b s (nested value chain blob) q u
            × (all_fit fits chain ≡ true))
          (NotCreated s (all_fit fits chain)) (nest lib fits pool value chain i c t)

    -- The pairs from `i` on fit, and the tree above them is at `c`.
    abbrev From : ℕ → Oid → State → Type 0
    From i c t =
        Created (Home lib pool os) b s (part i) c t
        × (all_fit fits (drop i chain) ≡ true)
        × (fits (value_at value chain i) ≡ true)

    fits_from :
        (i : ℕ) (k w : String)
        → get_elem? chain i ≡ some (k, w)
        → fits k ≡ true
        → all_fit fits (drop (suc i) chain) ≡ true
        → fits (value_at value chain (suc i)) ≡ true
        → all_fit fits (drop i chain) ≡ true
    fits_from i k w at k_e rest_e w_e =
        let w_e' : fits w ≡ true = rw (value_at_pair value chain i k w at) at w_e in
        rw (drop_pair chain i (k, w) at) (rw (k_e, w_e') rest_e)

    nest_step :
        (i : ℕ) (k w : String) (c : Oid) (t : State)
        → get_elem? chain i ≡ some (k, w)
        → i ≤ length chain
        → From (suc i) c t
        → ((p : Oid) (u : State) → From i p u → Nested i p u)
        → Nested (suc i) c t
    unfolding nest
    nest_step i k w c t at le (created, rest_fit, fit_w) next =
        let v : String = value_at value chain i in
        Ends.bind _ (at_index-Ends i (k, w) t at) λ e u (is_e, is_u).
          rw (is_e, is_u)
            (rw (value_before_lem fits lib value chain i t le) (
              Ends.bind _
                (Ends.mono
                  (allocate-New lib pool (passing sizeof_node node_type (make_node lib fits k v))
                    (node (record { items = oid_null; payload = oid_null; value = v; key = k }))
                    (fits v && fits k) t (make_node_lem lib fits k v))
                  (λ p u h. h)
                  (λ e u (refused, quiet). (
                    elim refused [
                      | inl is ↦ inl is
                      | inr (is, no_e) ↦ inr (is, blame i k w at le no_e)
                    ],
                    Grows-trans (Grows-less nowhere (nowhere-Within _) created.2)
                        (Quiet-Grows (nowhere-Owned t) quiet),
                  )))
                λ p u (new, fits_e). rw (get_lem lib node_type p _ u new.at refl) (
                  Ends.bind _
                    (Ends.mono
                      (above lib fits empty_e pool open_pool os b room s here k v c (part (suc i)) t
                        p u created new)
                      (λ a w h. h)
                      (λ e w (refused, h).
                        (elim refused [ inl is ↦ inl is | inr (is, no_e) ↦ absurd (cc no_e) ], h)))
                    λ _ x made. next p x (
                      rw (part-suc i k w at) at made,
                      fits_from i k w at (ground arith) rest_fit fit_w,
                      ground arith,
                    ))))

    nest_lem : (i : ℕ) (c : Oid) (t : State) → i ≤ length chain → From i c t → Nested i c t
    unfolding nest
    nest_lem zero c t le (created, fit_all, fit_v) = returns (created, fit_all)
    nest_lem (suc i) c t le from =
        let ((k, w), at) = get_elem?-some chain i (omega (arith, le)) in
        nest_step i k w c t at (omega (arith, le)) from
          (λ p u from'. nest_lem i p u (omega (arith, le)) from')

    -- For a value that fits if the chain does: `allocateNested` makes the chain of nodes above the
    -- leaf, apart from all that there was, and then all of the chain fits; or it throws.
    pub allocate_nested-Created :
        Ends
          (λ q u.
            Created (Home lib pool os) b s (nested value chain blob) q u
            × (all_fit fits chain ≡ true))
          (NotCreated s (all_fit fits chain))
          (allocate_nested lib fits pool value chain blob s)
    unfolding allocate_nested nested
    allocate_nested-Created =
        let last : String = value_at value chain (length chain) in
        rw (value_before_lem fits lib value chain (length chain) s (omega arith)) (
          Ends.bind _
            (Ends.mono
              (allocate_leaf-Created lib fits empty_e pool (Home lib pool os) b last blob blob_room
                s)
              (λ q t h. h)
              (λ e t (refused, h). (
                elim refused [
                  | inl is ↦ inl is
                  | inr (is, no_e) ↦ inr (is, blame_value (length chain) (omega arith) no_e)
                ],
                h,
              )))
            λ q t (created, fit_last).
              let all : From (length chain) q t =
                (rw (drop_all chain) created, rw (drop_all chain) refl, fit_last) in
              nest_lem (length chain) q t (omega arith) all)
