-- ===== src/Pool/PersistentPool/Laws.antt =====
-- The life of a pool: every registered pool is open, under its own handle.
use pmem.Prelude.{
  ℕ, ◌≡◌, refl, ap, ◌⊎◌, inl, inr, Bool, true, false, none, some, List, [], ◌∷◌, String, arith,
  length, ◌≤◌, ◌==◌, if◌then◌else◌, Bool-cases, Option-cases, ==_ne, ==_self,
}
use pmem.Prelude.Result.{ok, assertion_failed, open_error}
use pmem.Memory.Objects.{PersistentPool, State}
use pmem.Memory.Ends.{Ends, returns, throws}
use pmem.Pool.Registry.{Pools, find, erase, register_pool}
use pmem.Pool.Registry.Laws.{
  find-erase, registered, register_pool_lem, deregister_pool_lem, deregister_registered,
}
use pmem.Pool.Files.{Files, refused, mapped, mapping, unmap}
use pmem.Pool.PersistentPool.{stat_size, open_pool, close}

abbrev pub is_open : ℕ → List ℕ → Bool
is_open h [] = false
is_open h (k ∷ ks) = if k == h then true else is_open h ks

-- What the registry promises of each pool that it finds.
pub record IsValid (s : State) : Type 0 where
  pub own_handle : (h : ℕ) (pool : PersistentPool) → find h s.registry ≡ some pool → pool.handle ≡ h
  pub nonzero : (h : ℕ) (pool : PersistentPool) → find h s.registry ≡ some pool → (h == 0) ≡ false
  pub is_mapped :
      (h : ℕ) (pool : PersistentPool) → find h s.registry ≡ some pool → is_open h s.opened ≡ true

length-unmap : (h : ℕ) (ks : List ℕ) → length (unmap h ks) ≤ length ks
unfolding unmap
length-unmap h [] = omega arith
length-unmap h (k ∷ ks) = ground (arith, length-unmap h ks)

not_open : (h : ℕ) (ks : List ℕ) → unmap h ks ≡ ks → is_open h ks ≡ false
unfolding unmap
not_open h [] e = refl
not_open h (k ∷ ks) e = ground (arith, not_open h ks, ap length e, length-unmap h ks)

is_open-unmap :
    (h k : ℕ) (ks : List ℕ) → (h == k) ≡ false → is_open k ks ≡ true → is_open k (unmap h ks) ≡ true
unfolding unmap
is_open-unmap h k [] ne e = e
is_open-unmap h k (j ∷ ks) ne e = ground (arith, is_open-unmap h k ks)

absent_if_fresh :
    {s : State} (h : ℕ) → IsValid s → unmap h s.opened ≡ s.opened → find h s.registry ≡ none
absent_if_fresh {s} h v fresh = elim (Option-cases (find h s.registry)) [
  | inl e ↦ e
  | inr (pool, e) ↦ cc (v.is_mapped h pool e, not_open h s.opened fresh)
]

-- What a valid state becomes when a pool is opened.
opened_pool : State → PersistentPool → State
opened_pool s pool = registered (mapping pool.handle s) pool

opened_pool-IsValid :
    {s : State} (pool : PersistentPool)
    → IsValid s
    → (pool.handle == 0) ≡ false
    → IsValid (opened_pool s pool)
unfolding opened_pool find
opened_pool-IsValid {s} pool v nonzero = record {
  own_handle = λ h other e. ground (arith, v.own_handle h other);
  nonzero = λ h other e. ground (arith, v.nonzero h other);
  is_mapped = λ h other e. ground (arith, v.is_mapped h other);
}

unmap-mapping : (h : ℕ) (ks : List ℕ) → unmap h ks ≡ ks → unmap h (h ∷ ks) ≡ ks
unfolding unmap
unmap-mapping h ks fresh = ground arith

erased : (h : ℕ) (pools : Pools) → find h (erase h pools) ≡ none
erased h pools = rw (find-erase h h pools) (rw (==_self h) refl)

module _ {s : State} (v : IsValid s) (h : ℕ) where
  still :
      (k : ℕ) (pool : PersistentPool)
      → find k (erase h s.registry) ≡ some pool
      → ((h == k) ≡ false) × (find k s.registry ≡ some pool)
  still k pool e = elim (Bool-cases (h == k)) [
    | inl same ↦ absurd (cc (find-erase h k s.registry, same, e))
    | inr other ↦ (other, cc (find-erase h k s.registry, other, e))
  ]

  closed-IsValid : IsValid (record s { opened = unmap h s.opened; registry = erase h s.registry })
  closed-IsValid = record {
    own_handle = λ k pool e. v.own_handle k pool (still k pool e).1;
    nonzero = λ k pool e. v.nonzero k pool (still k pool e).1;
    is_mapped = λ k pool e.
        is_open-unmap h k s.opened (still k pool e).0 (v.is_mapped k pool (still k pool e).1);
  }

module _ (files : Files) {s : State} (v : IsValid s) where
  close-opened :
      (pool : PersistentPool)
      → (pool.handle == 0) ≡ false
      → unmap pool.handle s.opened ≡ s.opened
      → close files pool (opened_pool s pool) ≡ (ok (record pool { handle = 0 }), s)
  unfolding close opened_pool
  close-opened pool nonzero fresh = rw nonzero (
      rw (deregister_registered (mapping pool.handle s) pool (absent_if_fresh pool.handle v fresh))
        (rw (files.close_lem pool.handle (mapping pool.handle s))
          (rw (unmap-mapping pool.handle s.opened fresh) refl)))

  register-opened :
      (pool : PersistentPool)
      → unmap pool.handle s.opened ≡ s.opened
      → register_pool pool (mapping pool.handle s) ≡ (ok tt, opened_pool s pool)
  unfolding opened_pool
  register-opened pool fresh =
      rw (register_pool_lem (mapping pool.handle s) pool)
        (rw (absent_if_fresh pool.handle v fresh) refl)

  find-opened : (pool : PersistentPool) → find pool.handle (opened_pool s pool).registry ≡ some pool
  unfolding find opened_pool
  find-opened pool = rw (==_self pool.handle) refl

  -- From a state whose registry is valid: opening ends in a valid state, with the pool found
  -- under its handle and not new, and closing it then gives back the very state from before; or
  -- it throws an open error and nothing has changed, or an assertion fails and the registry is as
  -- it was.
  pub open_pool-Ends :
      (path name : String)
      → Ends
          (λ pool t.
            IsValid t
            × (find pool.handle t.registry ≡ some pool)
            × (pool.new_pool ≡ false)
            × (close files pool t ≡ (ok (record pool { handle = 0 }), s)))
          (λ e t.
            ((e ≡ open_error) × (t ≡ s)) ⊎ ((e ≡ assertion_failed) × (t.registry ≡ s.registry)))
          (open_pool files path name s)
  unfolding open_pool stat_size
  open_pool-Ends path name = elim (files.open-Mapped path name s) [
    | refused e ↦ rw e (throws (inl (refl, refl)))
    | mapped h ne fresh e ↦ rw e (
        rw (==_ne h 0 ne) (elim (Option-cases (files.stat path (mapping h s))) [
          | inl none_e ↦ rw none_e (throws (inr (refl, refl)))
          | inr (size, some_e) ↦ rw some_e (
              let pool : PersistentPool = record {
                path = path;
                handle = h;
                new_pool = false;
                size = size;
              } in
              rw (register-opened pool fresh) (
                returns (
                  opened_pool-IsValid pool v (==_ne h 0 ne),
                  find-opened pool,
                  refl,
                  close-opened pool (==_ne h 0 ne) fresh,
                )))
        ]))
  ]

  -- From a state whose registry is valid, closing a registered pool throws nothing; it ends in a
  -- valid state, with a null handle, and the pool's handle is not found any more.
  pub close-IsValid :
      (pool : PersistentPool)
      → find pool.handle s.registry ≡ some pool
      → Ends
          (λ closed t. IsValid t × (closed.handle ≡ 0) × (find pool.handle t.registry ≡ none))
          (λ e t. ⊥)
          (close files pool s)
  unfolding close
  close-IsValid pool e = rw (v.nonzero pool.handle pool e) (
      rw (deregister_pool_lem s pool) (
        rw e (
          rw (files.close_lem pool.handle (record s { registry = erase pool.handle s.registry }))
            (returns (closed-IsValid v pool.handle, refl, erased pool.handle s.registry)))))
