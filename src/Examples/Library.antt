-- ===== src/Examples/Library.antt =====
-- A libpmemobj of a few addresses, and a file system in which one pool can be open at a time.
use pmem.Prelude.{
  ℕ, zero, suc, ◌+◌, ◌≡◌, refl, ◌⊎◌, inl, inr, false, Option, none, some, List, [], ◌∷◌, arith,
  Option-cases, Bool-cases, ◌==◌, ==_iff, if◌then◌else◌,
}
use pmem.Prelude.Result.{Result, ok}
use pmem.Oid.{Oid, null}
use pmem.Memory.Objects.{Object, State}
use pmem.Memory.Access.{M, set_object}
use pmem.Memory.Pmemobj.{
  Place, volatile, inside, reserve, settle, Allocation, refused, placed, Pmemobj,
}
use pmem.Pool.Files.{Files, unmap, mapping, Mapped, refused, mapped}

-- The first free address of `k`, from `n` on.
unfoldable pub pick : ℕ → ℕ → State → Option Oid
pick zero n s = none
pick (suc k) n s = elim (s.heap (record { pool_uuid_lo = 7; off = suc n })) [
  | none ↦ some (record { pool_uuid_lo = 7; off = suc n })
  | some o ↦ pick k (suc n) s
]

pick_free :
    (k n : ℕ) (s : State)
    → (pick k n s ≡ none)
      ⊎ ((p : Oid) × (pick k n s ≡ some p) × (s.heap p ≡ none) × (null p ≡ false))
unfolding pick
pick_free zero n s = inl refl
pick_free (suc k) n s =
    let p : Oid = record { pool_uuid_lo = 7; off = suc n } in
    elim (Option-cases (s.heap p)) [
      | inl free ↦ rw (pick, free) (inr (p, refl, free, ground arith))
      | inr (o, taken) ↦ rw (pick, taken) (pick_free k (suc n) s)
    ]

abbrev alloc_at : Option Oid → ℕ → ℕ → (Oid → M ℕ) → M (Option Oid)
alloc_at none size type_num ctor s = (ok none, s)
alloc_at (some p) size type_num ctor s = settle p (ctor p (reserve p size type_num s))

abbrev type_of : Option Object → ℕ
type_of none = 0
type_of (some o) = o.type_num

abbrev first_of : List ℕ → ℕ
first_of [] = 0
first_of (h ∷ hs) = h

abbrev pool_of : Place → List ℕ → ℕ
pool_of volatile hs = 0
pool_of (inside p) hs = first_of hs

-- The pool must be the one that is open.
abbrev pub alloc_in : ℕ → ℕ → ℕ → (Oid → M ℕ) → M (Option Oid)
alloc_in pool size type_num ctor s =
    alloc_at (if first_of s.opened == pool then pick 8 0 s else none) size type_num ctor s

pub alloc-Allocation :
    (pool size type_num : ℕ) (ctor : Oid → M ℕ) (s : State)
    → Allocation pool_of pool size type_num ctor s (alloc_in pool size type_num ctor s)
alloc-Allocation pool size type_num ctor s = elim (Bool-cases (first_of s.opened == pool)) [
  | inl open_e ↦ elim (pick_free 8 0 s) [
    | inl e ↦ rw (open_e, e) (refused refl)
    | inr (p, e, free, alive) ↦
        rw (open_e, e) (placed p free alive ((==_iff (first_of s.opened) pool).0 open_e) refl)
  ]
  | inr other ↦ rw other (refused refl)
]

abbrev pub lib : Pmemobj
lib = record {
  alloc = alloc_in;
  free = λ p s. (ok tt, set_object p none s);
  type_num = λ p s. type_of (s.heap p);
  pool_by_ptr = pool_of;
  usable_size = λ p size. size + 104;
  usable_size_ge = λ p size. omega arith;
  alloc-Allocation = alloc-Allocation;
  free_lem = λ p s. refl;
  type_num_lem = λ p o s e. rw e refl;
  pool_by_ptr-volatile = λ hs. refl;
}

-- A pool is mapped under the handle that is given, or refused.
abbrev pub open_once : Option ℕ → State → Result ℕ × State
open_once none s = (ok 0, s)
open_once (some h) s = (ok h, mapping h s)

abbrev no_objects : Oid → Option Object
no_objects p = none

abbrev pub empty_state : State
empty_state = record { heap = no_objects; flushes = []; opened = []; registry = [] }

abbrev free_handle : List ℕ → Option ℕ
free_handle [] = some 3
free_handle (h ∷ hs) = none

pub open-Mapped : (s : State) → Mapped s (open_once (free_handle s.opened) s)
unfolding unmap
open-Mapped s = go s.opened refl
  where
    go : (hs : List ℕ) → s.opened ≡ hs → Mapped s (open_once (free_handle hs) s)
    go [] e = mapped 3 (λ h. omega (arith, h)) (rw e refl) refl
    go (h ∷ hs) e = refused refl

abbrev pub files : Files
files = record {
  open_file = λ path name s. open_once (free_handle s.opened) s;
  create_file = λ path name size s. open_once (free_handle s.opened) s;
  close_file = λ h s. (ok tt, record s { opened = unmap h s.opened });
  stat = λ path s. some 4096;
  remove_file = λ path s. (ok tt, s);
  root_construct = λ h size ctor s. (ok tt, s);
  root = λ h size s. (ok (record { pool_uuid_lo = 7; off = 1 }), s);
  open-Mapped = λ path name s. open-Mapped s;
  create-Mapped = λ path name size s. open-Mapped s;
  close_lem = λ h s. refl;
}
