-- ===== src/Examples/Keeps.antt =====
-- A `TreeObject` to which a leaf is added, and then looked up.
use pmem.Prelude.{◌≡◌, refl, ◌⊎◌, Option, none, some, List, [], ◌∷◌, arith}
use pmem.Prelude.Result.{allocation_error, ok, err}
use pmem.Memory.Access.{update, ◌>>◌}
use pmem.Memory.Ends.{Ends}
use pmem.Pool.Registry.{find as find_pool}
use pmem.Tree.Schema.{KeyType, TreeSchema, find, process_insert_key}
use pmem.Tree.Node.Lookup.Found.{Found}
use pmem.Tree.Root.{add, add_root, lookup}
use pmem.Tree.Root.Plant.{add_root-plant}
use pmem.Oid.{Oid, oid_null}
use pmem.Memory.Objects.{root, TreeRoot, Object, State}
use pmem.Tree.Root.Planted.{RootNode, Planted, plant, matching, with_chain}
use pmem.Tree.Root.Keeps.{lookup-add}
use pmem.Tree.Shape.{Tree, leaf, matches, gather}
use pmem.Tree.Tool.{Value, map_value, value_to_string_dict, matching_line, data_line, show_matches}
use pmem.Tree.Tool.Laws.{show_matches-data_lines}
use pmem.Tree.Shape.Added.{Added}
use pmem.Tree.Shape.Laws.{last_value}
use pmem.Examples.Library.{lib, files}
use pmem.Examples.Search.{every}
use pmem.Examples.WholeTree.{
  start, whole, pool, InPool, all, eggs, blob_at, root_at, tree_root, root_object, whole-Rep,
  all-Owned, any_fits, whole_deep,
}

abbrev schema : TreeSchema
schema = record { keys = "name" ∷ [] }

root-RootNode : RootNode root_at tree_root start
unfolding update
root-RootNode = record { object = root_object; at = refl; is = refl }

whole-Planted : Planted InPool 2 root_at blob_at (some whole) start
whole-Planted = (tree_root, root-RootNode, refl, refl, all, refl, all-Owned, whole-Rep, refl)

lookup-add_example :
    Ends
      (λ r u.
        (chain : KeyType) × (process_insert_key schema eggs ≡ ok chain)
        × ((found : List Tree) × Found InPool 4 u r found
            × Added (matching eggs (some whole)) found (leaf (last_value "" chain) (8 ∷ []) ∷ [])))
      (λ e u.
        ((e ≡ allocation_error)
          ⊎ (with_chain (process_insert_key schema eggs) (plant every (8 ∷ []) (some whole))
              ≡ err e))
        × Planted InPool 4 root_at blob_at (some whole) u)
      ((do add lib every schema root_at eggs (8 ∷ []); lookup lib 1 every root_at eggs) start)
unfolding find_pool
lookup-add_example =
    lookup-add lib every refl pool refl (3 ∷ []) ((3, pool) ∷ []) refl 2 (omega arith) (omega arith)
      (8 ∷ []) (λ x. omega arith) root_at blob_at refl refl 1 schema eggs (some whole) start
      (λ k. any_fits (find k eggs)) whole-Planted refl refl (omega (arith, whole_deep))
      (omega arith)

-- The root before its first leaf.
abbrev bare_root : TreeRoot
bare_root = record { tag = "999TREE9"; node = oid_null; schema = blob_at }

abbrev bare_object : Object
bare_object = record { type_num = 0; size = 40; content = root bare_root }

abbrev bare_heap : Oid → Option Object
bare_heap x = update start.heap root_at (some bare_object) x

abbrev bare : State
bare = record start { heap = bare_heap }

bare-RootNode : RootNode root_at bare_root bare
unfolding update
bare-RootNode = record { object = bare_object; at = refl; is = refl }

add_root_example :
    Ends
      (λ _ u.
        (t : Tree) × (plant every (8 ∷ []) none eggs ≡ ok t)
        × Planted InPool 4 root_at blob_at (some t) u
        × (u.opened ≡ 3 ∷ [])
        × (u.registry ≡ (3, pool) ∷ []))
      (λ e u.
        ((e ≡ allocation_error) ⊎ (plant every (8 ∷ []) none eggs ≡ err e))
        × Planted InPool 4 root_at blob_at none u)
      (add_root lib every root_at eggs (8 ∷ []) bare)
unfolding find_pool
add_root_example =
    add_root-plant lib every refl pool refl (3 ∷ []) ((3, pool) ∷ []) refl 2 (omega arith)
      (omega arith) (8 ∷ []) (λ x. omega arith) root_at blob_at refl refl eggs none bare
      (bare_root, bare-RootNode, refl, refl) refl refl

abbrev spam_value : Value
spam_value = map_value (("name", ok "spam") ∷ [])

show_matches_example :
    Ends
      (λ lines u. lines ≡ matching_line ∷ data_line (9 ∷ []) ∷ [])
      (λ e u. ⊥)
      (show_matches lib files every 1 root_at spam_value start)
unfolding value_to_string_dict matches gather find
show_matches_example =
    show_matches-data_lines lib files every pool refl (3 ∷ []) 2 root_at blob_at 1 spam_value
      (("name", "spam") ∷ []) whole start refl (λ k. any_fits (find k (("name", "spam") ∷ [])))
      whole-Planted refl (omega (arith, whole_deep))
