-- ===== src/Pool/Files.antt =====
-- What pools take from libpmemobj and the system, and what the documentation says of it.
use pmem.Prelude.{ℕ, ◌≡◌, ◌≢◌, Option, List, [], ◌∷◌, String, ◌==◌, if◌then◌else◌}
use pmem.Prelude.Result.{Result, ok}
use pmem.Oid.{Oid}
use pmem.Memory.Objects.{State}
use pmem.Memory.Access.{M}

-- The pools but one.
unfoldable pub unmap : ℕ → List ℕ → List ℕ
unmap h [] = []
unmap h (k ∷ ks) = let rest = unmap h ks in if k == h then rest else k ∷ rest

abbrev pub mapping : ℕ → State → State
mapping h s = record s { opened = h ∷ s.opened }

-- A pool is refused with a null handle, or mapped under a handle that no open pool has.
pub data Mapped (s : State) (r : Result ℕ × State) : Type 0 where
  refused : r ≡ (ok 0, s) → Mapped s r
  mapped : (h : ℕ) → h ≢ 0 → unmap h s.opened ≡ s.opened → r ≡ (ok h, mapping h s) → Mapped s r

pub record Files : Type 0 where
  -- `pmemobj_open(path, layout)`, `pmemobj_create(path, layout, size, mode)`
  pub open_file : String → String → M ℕ
  pub create_file : String → String → ℕ → M ℕ
  -- `pmemobj_close(handle)`
  pub close_file : ℕ → M (Unit {0})
  -- `stat(path)`: the size, or a failure
  pub stat : String → State → Option ℕ
  -- `remove(path)`
  pub remove_file : String → M (Unit {0})
  -- `pmemobj_root_construct(handle, size, constructor)`, whose result the program drops
  pub root_construct : ℕ → ℕ → (Oid → M ℕ) → M (Unit {0})
  -- `pmemobj_root(handle, size)`
  pub root : ℕ → ℕ → M Oid
  pub open-Mapped : (path name : String) (s : State) → Mapped s (open_file path name s)
  pub create-Mapped :
      (path name : String) (size : ℕ) (s : State) → Mapped s (create_file path name size s)
  pub close_lem :
      (h : ℕ) (s : State) → close_file h s ≡ (ok tt, record s { opened = unmap h s.opened })
