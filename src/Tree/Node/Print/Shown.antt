-- ===== src/Tree/Node/Print/Shown.antt =====
-- The text of a tree without addresses.
use pmem.Prelude.{
  ℕ, ◌≡◌, refl, Bool, true, false, List, [], ◌∷◌, ◌++◌, String, arith, length, ◌==◌, if◌then◌else◌,
}
use pmem.Oid.{Oid}
use pmem.Memory.Objects.{State}
use pmem.Tree.Shape.{Tree, leaf, inner, Trees, end, more, value_of}
use pmem.Tree.Rep.{Region, Each, none_each, more_each}
use pmem.Tree.Node.Print.{indent}

abbrev pub is_end : Trees → Bool
is_end end = true
is_end (more t ts) = false

-- Each node is a block in braces: a leaf with the number of its bytes, another node with its key
-- and the blocks of its sub-nodes behind their values, two levels further in, with commas between.
unfoldable mutual
  pub shown : (ℕ → String) → String → Tree → List String
  shown bytes pad (leaf v blob) =
      "{" ∷ "\n" ∷ (indent pad ∷ "data: " ∷ bytes (length blob) ∷ "\n" ∷ []) ++ pad ∷ "}" ∷ []
  shown bytes pad (inner v k ts) =
      "{"
        ∷ "\n"
        ∷ (indent pad
              ∷ "key: "
              ∷ k
              ∷ ","
              ∷ "\n"
              ∷ indent pad
              ∷ "items: ["
              ∷ shown_all bytes (indent (indent pad)) true ts
            ++ (if is_end ts then [] else "\n" ∷ indent pad ∷ [])
            ++ "]" ∷ "\n" ∷ [])
      ++ pad ∷ "}" ∷ []

  pub shown_all : (ℕ → String) → String → Bool → Trees → List String
  shown_all bytes pad first end = []
  shown_all bytes pad first (more t ts) =
      (if first then [] else "," ∷ [])
      ++ "\n" ∷ pad ∷ value_of t ∷ ": " ∷ shown bytes pad t
      ++ shown_all bytes pad false ts

pub length-Each :
    {H : Oid → Type 0} {b : ℕ} {s : State} {C : Region} {xs : List Oid} {ts : Trees}
    → Each H b s C xs ts
    → (length xs == 0) ≡ is_end ts
length-Each none_each = refl
length-Each (more_each D E in_d in_e apart first rest) = ground arith
