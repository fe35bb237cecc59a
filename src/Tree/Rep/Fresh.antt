-- ===== src/Tree/Rep/Fresh.antt =====
-- New objects that a pool allocates for a tree.
use pmem.Prelude.{
  ℕ, ◌≡◌, refl, ap, ◌∙◌, ◌⊎◌, inl, inr, Bool, true, false, none, some, arith, Bool-cases,
  if◌then◌else◌,
}
use pmem.Prelude.Result.{Error, allocation_error, assertion_failed, err}
use pmem.Oid.{Oid, oid_null, null, oid_eq, oid_eq_iff}
use pmem.Memory.Objects.{Content, uninit, Object, PersistentPool, State}
use pmem.Memory.Access.{set_object, store, store_lem}
use pmem.Memory.Ends
use pmem.Memory.Ends.{Ends, returns, throws}
use pmem.Memory.Pmemobj.{Pmemobj, inside, reserve}
use pmem.Ptr.Constructor.{AtomicConstructor}
use pmem.Ptr.Pointer.Allocate.{Makes, allocate_ctr-Ends}
use pmem.PersistentVector.Standing.{update_self, update_ne, ne_of_free}
use pmem.Pool.PersistentPool.{allocate}
use pmem.Tree.Rep.{Region}
use pmem.Tree.Rep.Alike.{AlikeContent-refl}
use pmem.Tree.Rep.Quiet.{Quiet, Quiet-refl, Quiet-AlikeOn}
use pmem.Tree.Rep.Grows.{outside, Owned, Grows, Quiet-Owned}
use pmem.Tree.Rep.Push.{single, union}

-- `o` is at `p`, which was free, and all other objects are alike.
pub record New (lib : Pmemobj) (handle : ℕ) (s : State) (p : Oid) (o : Object) (t : State)
    : Type 0 where
  pub free : s.heap p ≡ none
  pub alive : null p ≡ false
  pub home : lib.pool_by_ptr (inside p) s.opened ≡ handle
  pub at : t.heap p ≡ some o
  pub quiet : Quiet s t

-- A failure: of an allocation, or of the assertion on `b`.
abbrev pub Refusal : Bool → Error → Type 0
Refusal b e = (e ≡ allocation_error) ⊎ ((e ≡ assertion_failed) × (b ≡ false))

abbrev object_of : AtomicConstructor → Content → Object
object_of c x = record { type_num = c.type_id; size = c.size; content = x }

-- Only a free address has changed.
Quiet-free :
    (p : Oid) (s t : State)
    → s.heap p ≡ none
    → ((q : Oid) → oid_eq q p ≡ false → t.heap q ≡ s.heap q)
    → t.opened ≡ s.opened
    → t.registry ≡ s.registry
    → Quiet s t
Quiet-free p s t free elsewhere opened registry = record {
  alike = λ q o found at.
      (o, elsewhere q (ne_of_free s.heap p q o free at) ∙ at, (refl, AlikeContent-refl o.content));
  opened = opened;
  registry = registry;
}

module _ (lib : Pmemobj) (pool : PersistentPool) (c : AtomicConstructor) (x : Content) (b : Bool)
    (s : State)
    (make_lem : (p : Oid) (t : State)
      → c.make p t ≡ (if b then store p x t else (err assertion_failed, t))) where
  abbrev Made : Oid → State → Type 0
  Made p t =
      (t.heap p ≡ some (object_of c x))
      × Quiet s t
      × (lib.pool_by_ptr (inside p) s.opened ≡ pool.handle)
      × (b ≡ true)

  abbrev Refused : Error → State → Type 0
  Refused e t = Refusal b e × Quiet s t

  makes : Makes lib pool.handle c s Made Refused
  makes p free alive lies =
      let begun : Object = object_of c uninit in
      let t0 : State = reserve p c.size c.type_id s in
      let t1 : State = set_object p (some (object_of c x)) t0 in
      let first : (q : Oid) → oid_eq q p ≡ false → t0.heap q ≡ s.heap q =
        λ q ne. update_ne s.heap p q (some begun) ne in
      rw (make_lem p t0) (elim (Bool-cases b) [
        | inl yes_e ↦ rw yes_e (
            rw (store_lem p x begun t0 (update_self s.heap p (some begun))) (
              returns (
                update_self t0.heap p (some (object_of c x)),
                Quiet-free p s t1 free
                    (λ q ne. update_ne t0.heap p q (some (object_of c x)) ne ∙ first q ne) refl
                    refl,
                lies,
                refl,
              )))
        | inr no_e ↦ rw no_e (throws (inr (refl, refl), Quiet-free p s t0 free first refl refl))
      ])

  -- The pool gives a new object with the content, or refuses it; or the assertion fails.
  pub allocate-New :
      Ends
        (λ p t. New lib pool.handle s p (object_of c x) t × (b ≡ true))
        Refused
        (allocate lib pool c s)
  unfolding allocate
  allocate-New =
      Ends.mono
        (allocate_ctr-Ends lib c s Made Refused pool.handle oid_null refl (inl refl, Quiet-refl s)
          makes)
        (λ p t (free, alive, (at, quiet, lies, yes_e)).
          (record { free = free; alive = alive; home = lies; at = at; quiet = quiet }, yes_e))
        (λ e t h. h)

pub New-Grows :
    {lib : Pmemobj} {handle : ℕ} {s t : State} {p : Oid} {o : Object} (A : Region)
    → Owned A s
    → New lib handle s p o t
    → Grows s A t (union (single p) A)
New-Grows {s} {t} {p} {o} A own new = record {
  owned = λ q found. elim (Bool-cases (oid_eq q p)) [
    | inl same ↦
        let here = (oid_eq_iff q p).0 same in (o, ap t.heap here ∙ new.at, ap null here ∙ new.alive)
    | inr ne ↦ Quiet-Owned own new.quiet q (ground arith)
  ];
  fresh = λ q found. elim (Bool-cases (oid_eq q p)) [
    | inl same ↦ inr (ap s.heap ((oid_eq_iff q p).0 same) ∙ new.free)
    | inr ne ↦ inl (ground arith)
  ];
  frame = Quiet-AlikeOn (outside A) new.quiet;
  opened = new.quiet.opened;
  registry = new.quiet.registry;
}
