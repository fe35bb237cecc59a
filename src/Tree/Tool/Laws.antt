-- ===== src/Tree/Tool/Laws.antt =====
-- What the tool shows of a tree.
use pmem.Prelude.{ℕ, ◌≡◌, ◌≤◌, refl, Bool, false, some, List, [], ◌∷◌, String, ◌==◌}
use pmem.Prelude.Result.{ok}
use pmem.Oid.{Oid}
use pmem.Memory.Objects.{PersistentPool, State}
use pmem.Memory.Ends
use pmem.Memory.Ends.{Ends, returns}
use pmem.Memory.Pmemobj.{Pmemobj}
use pmem.PersistentVector.Standing.{get_lem}
use pmem.Pool.Files.{Files}
use pmem.Tree.Schema.{StringDict, find}
use pmem.Tree.Node.{buffer_type}
use pmem.Tree.Node.Create.{Home}
use pmem.Tree.Node.Add.Laws.{node_at_lem}
use pmem.Tree.Node.Lookup.Laws.{Fit}
use pmem.Tree.Node.Lookup.Found.{Found}
use pmem.Tree.Root.Laws.{text_of_lem}
use pmem.Tree.Root.Planted.{Planted}
use pmem.Tree.Root.Search.{lookup-Found}
use pmem.Tree.Shape.{Tree, leaf, inner, matches, depth}
use pmem.Tree.Rep.{leaf_rep, inner_rep}
use pmem.Tree.Tool.{
  Line, data_line, matching_line, Value, value_to_string_dict, show_data, show_matches,
}

-- The data of the leaves, a line for each.
abbrev pub data_lines : List Tree → List Line
data_lines [] = []
data_lines (leaf v blob ∷ ts) = data_line blob ∷ data_lines ts
data_lines (inner v k us ∷ ts) = data_lines ts

module _ (lib : Pmemobj) (files : Files) (fits : String → Bool) (fuel : ℕ) (H : Oid → Type 0)
    (b : ℕ) (s : State) where
  show_data_lem :
      (cs : List Oid) (ts : List Tree)
      → Found H b s cs ts
      → show_data lib files fits fuel cs s ≡ (ok (data_lines ts), s)
  unfolding show_data
  show_data_lem [] [] h = refl
  show_data_lem (c ∷ cs) (leaf v blob ∷ ts) ((A, leaf_rep n here there nd val live bytes), h) =
      rw (node_at_lem lib c n s nd) (
        rw live (
          rw (get_lem lib buffer_type n.payload bytes.object s bytes.at bytes.typed)
            (rw bytes.is (rw (text_of_lem blob s) (rw (show_data_lem cs ts h) refl)))))
  show_data_lem (c ∷ cs) (inner v k us ∷ ts)
        ((A, inner_rep n B here within out nd val key is_null home below), h) =
      rw (node_at_lem lib c n s nd) (rw is_null (rw (show_data_lem cs ts h) refl))
  show_data_lem [] (t ∷ ts) h = absurd h
  show_data_lem (c ∷ cs) [] h = absurd h

module _ (lib : Pmemobj) (files : Files) (fits : String → Bool) (pool : PersistentPool)
    (open_pool : (pool.handle == 0) ≡ false) (os : List ℕ) (b : ℕ) (p q : Oid) where
  -- For a root with a tree of nodes in a pool that is open, a parsed map whose members are
  -- strings that fit, and a bound that the tree's depth does not exceed: a lookup of the tool
  -- ends without an exception, and writes the heading and then the data of each leaf that
  -- matches, in the order of the tree.
  pub show_matches-data_lines :
      (fuel : ℕ) (v : Value) (key : StringDict) (t : Tree) (s : State)
      → value_to_string_dict v ≡ ok key
      → ((k : String) → Fit fits (find k key))
      → Planted (Home lib pool os) b p q (some t) s
      → s.opened ≡ os
      → depth t ≤ fuel
      → Ends
          (λ lines u. lines ≡ matching_line ∷ data_lines (matches key t))
          (λ e u. ⊥)
          (show_matches lib files fits fuel p v s)
  unfolding show_matches
  show_matches-data_lines fuel v key t s parsed key_fits planted opened deep = rw parsed (
      Ends.bind _
        (lookup-Found lib fits pool open_pool os p q b key fuel t s key_fits planted opened deep)
        λ nodes u found.
          rw (show_data_lem lib files fits fuel (Home lib pool os) b u nodes (matches key t) found)
            (returns refl))
