-- ===== src/Examples/Overflow.antt =====
-- A leaf that is too large for its block.
use pmem.Prelude.{ℕ, true, false, Bool, List, [], ◌∷◌, String, arith, replicate, length-replicate}
use pmem.Memory.Objects.{PersistentPool}
use pmem.Memory.Ends.{Ends}
use pmem.Tree.Node.{allocate_nested}
use pmem.Tree.Node.Overflow.{Overflow, allocate_nested-Overflow}
use pmem.Examples.Library.{lib, empty_state}

abbrev any : String → Bool
any value = true

abbrev pool : PersistentPool
pool = record { path = "tree.pool"; handle = 3; new_pool = false; size = 4096 }

abbrev large : List ℕ
large = replicate 200 1

no_block_example :
    Ends
      (λ q u. ⊥)
      Overflow
      (allocate_nested lib any pool "root" (("name", "spam") ∷ []) large empty_state)
no_block_example =
    allocate_nested-Overflow lib any pool large (λ p. omega (arith, length-replicate {A = ℕ} 200 1))
      "root" (("name", "spam") ∷ []) empty_state
