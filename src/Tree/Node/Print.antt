-- ===== src/Tree/Node/Print.antt =====
-- `TreeNode::printTree`. The text is the list of what is written to the stream.
pub mod Shown
pub mod Laws
use pmem.Prelude.{ℕ, zero, suc, List, [], ◌∷◌, ◌++◌, String, ltb, ◌==◌, if◌then◌else◌}
use pmem.Prelude.Result.{out_of_fuel}
use Prim.Native.String
use pmem.Oid.{Oid}
use pmem.Memory.Access.{M, pure, throw, ◌>>=◌}
use pmem.Memory.Pmemobj.{Pmemobj}
use pmem.Ptr.Location.{items}
use pmem.PersistentVector
use pmem.Tree.Node.{data_type, data_size, this_node, node_at, leaf}

abbrev pub indent : String → String
indent pad = String.◌++◌ pad "  "

-- `bytes` is `eckit::Bytes`, the text of a number of bytes.
module _ (lib : Pmemobj) (bytes : ℕ → String) where
  -- The loop. `go` prints a sub-node, and the first number bounds the rounds.
  unfoldable pub print_items : (Oid → M (List String)) → String → ℕ → Oid → ℕ → M (List String)
  unfolding node_at PersistentVector.size PersistentVector.element
  print_items go pad4 zero p i = throw out_of_fuel
  print_items go pad4 (suc rounds) p i =
      let more = print_items go pad4 rounds p (suc i) in
      do
        sz ← PersistentVector.size lib data_type (items p)
        if ltb i sz
            then (do
              c ← PersistentVector.element lib data_type (items p) i
              n ← node_at lib c
              shown ← go c
              rest ← more
              pure (
                  (if i == 0 then [] else "," ∷ [])
                  ++ "\n" ∷ pad4 ∷ n.value ∷ ": " ∷ shown
                  ++ rest))
            else pure []

  -- `printTree`, a method of the node `p`, in a tree whose depth is below the first number
  unfoldable pub print_tree : ℕ → Oid → String → M (List String)
  unfolding this_node data_size print_items PersistentVector.allocated_size PersistentVector.size
  print_tree zero p pad = throw out_of_fuel
  print_tree (suc depth) p pad =
      let pad2 = indent pad in
      let pad4 = indent pad2 in
      do
        n ← this_node p
        body ←
            if leaf n
            then (do size ← data_size lib p; pure (pad2 ∷ "data: " ∷ bytes size ∷ "\n" ∷ []))
            else (do
              slots ← PersistentVector.allocated_size lib data_type (items p)
              shown ← print_items (λ c. print_tree depth c pad4) pad4 (suc slots) p 0
              sz ← PersistentVector.size lib data_type (items p)
              pure (
                  pad2 ∷ "key: " ∷ n.key ∷ "," ∷ "\n" ∷ pad2 ∷ "items: [" ∷ shown
                  ++ (if sz == 0 then [] else "\n" ∷ pad2 ∷ [])
                  ++ "]" ∷ "\n" ∷ []))
        pure ("{" ∷ "\n" ∷ body ++ pad ∷ "}" ∷ [])
