-- ===== src/Tree/Node/Create.antt =====
-- `allocateLeaf` and `allocateNested`: a new leaf, and new nodes above it.
use pmem.Prelude.{
  ℕ, ◌≡◌, refl, inl, inr, Bool, true, false, ◌&&◌, List, String, arith, if◌then◌else◌, length,
}
use pmem.Prelude.Result.{Error, assertion_failed, err}
use pmem.Oid.{Oid, oid_null, null, oid_eq_self}
use pmem.Memory.Objects.{buffer, node, PersistentPool, State}
use pmem.Memory.Access.{store}
use pmem.Memory.Ends
use pmem.Memory.Ends.{Ends, returns, throws}
use pmem.Memory.Pmemobj.{Pmemobj, inside}
use pmem.Ptr.Constructor.{passing}
use pmem.Text.PersistentBuffer
use pmem.Tree.Node.{node_type, buffer_type, sizeof_node, make_node, make_leaf, allocate_leaf}
use pmem.Tree.Node.Add.Laws.{Node}
use pmem.Tree.Shape.{Tree, leaf}
use pmem.Tree.Rep.{Region, Rep, leaf_rep, Blob}
use pmem.Tree.Rep.Alike.{Blob-Twin}
use pmem.Tree.Rep.Quiet.{Quiet-trans}
use pmem.Tree.Rep.Grows.{nowhere, Owned, Grows, Grows-trans, Quiet-Grows}
use pmem.Tree.Rep.Push.{single, union}
use pmem.Tree.Rep.Fresh.{Refusal, allocate-New, New-Grows}

pub nowhere-Owned : (s : State) → Owned nowhere s
nowhere-Owned s q found = absurd (cc found)

module _ (lib : Pmemobj) (fits : String → Bool) where
  pub make_node_lem :
      (k v : String) (p : Oid) (t : State)
      → make_node lib fits k v p t ≡ (
          if fits v && fits k
          then store p
              (node (record { items = oid_null; payload = oid_null; value = v; key = k }))
              t
          else (err assertion_failed, t))
  unfolding make_node
  make_node_lem k v p t = ground arith

  make_leaf_lem :
      fits "" ≡ true
      → (v : String) (q p : Oid) (t : State)
      → make_leaf lib fits v q p t ≡ (
          if fits v
          then store p (node (record { items = oid_null; payload = q; value = v; key = "" })) t
          else (err assertion_failed, t))
  unfolding make_leaf
  make_leaf_lem empty_e v q p t = ground arith

-- An address in the pool.
abbrev pub Home : Pmemobj → PersistentPool → List ℕ → Oid → Type 0
Home lib pool os q = lib.pool_by_ptr (inside q) os ≡ pool.handle

-- A new tree at `q`, apart from all that there was.
abbrev pub Created : (Oid → Type 0) → ℕ → State → Tree → Oid → State → Type 0
Created H b s t q u = (D : Region) × Rep H b u D q t × Grows s nowhere u D × (null q ≡ false)

abbrev pub NotCreated : State → Bool → Error → State → Type 0
NotCreated s fit e u = Refusal fit e × Grows s nowhere u nowhere

module _ (lib : Pmemobj) (fits : String → Bool) (empty_e : fits "" ≡ true) (pool : PersistentPool)
    (H : Oid → Type 0) where
  pub allocate_leaf-Created :
      (b : ℕ) (v : String) (blob : List ℕ) (room : PersistentBuffer.HasRoom lib.usable_size blob)
      (s : State)
      → Ends
          (λ q u. Created H b s (leaf v blob) q u × (fits v ≡ true))
          (NotCreated s (fits v))
          (allocate_leaf lib fits pool v blob s)
  unfolding allocate_leaf passing PersistentBuffer.constructor
  allocate_leaf-Created b v blob room s =
      Ends.bind _
        (Ends.mono
          (allocate-New lib pool
            (PersistentBuffer.constructor lib.usable_size buffer_type PersistentBuffer.char_pointer
              blob)
            (buffer (record { length = length blob; bytes = blob })) true s
            (λ p t. PersistentBuffer.make_lem lib.usable_size buffer_type blob p t room))
          (λ a u h. h)
          (λ e u (refused, quiet). (
            elim refused [ inl is ↦ inl is | inr (is, no_e) ↦ absurd (cc no_e) ],
            Quiet-Grows (nowhere-Owned s) quiet,
          )))
        λ q t (data_new, _).
          Ends.mono
            (allocate-New lib pool (passing sizeof_node node_type (make_leaf lib fits v q))
              (node (record { items = oid_null; payload = q; value = v; key = "" })) (fits v) t
              (make_leaf_lem lib fits empty_e v q))
            (λ p u (new, fit_e).
              let first = New-Grows nowhere (nowhere-Owned s) data_new in
              let second = New-Grows (union (single q) nowhere) first.owned new in
              let nd : Node p (record { items = oid_null; payload = q; value = v; key = "" }) u =
                record { object = _; at = new.at; typed = refl; is = refl } in
              let data_now : Blob q blob t = record {
                object = _;
                at = data_new.at;
                typed = refl;
                is = refl;
              } in
              (
                (
                  union (single p) (union (single q) nowhere),
                  leaf_rep _ (rw (oid_eq_self p) refl) (rw (oid_eq_self q) (ground arith)) nd refl
                      data_new.alive
                      (Blob-Twin data_now (new.quiet.alike q data_now.object refl data_now.at)),
                  Grows-trans first second,
                  new.alive,
                ),
                fit_e,
              ))
            (λ e u (refused, quiet).
              (refused, Quiet-Grows (nowhere-Owned s) (Quiet-trans data_new.quiet quiet)))
