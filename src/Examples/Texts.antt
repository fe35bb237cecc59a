-- ===== src/Examples/Texts.antt =====
-- Strings and buffers at concrete inputs.
use pmem.Prelude.{ℕ, ◌≤◌, ◌≡◌, ◌↔◌, refl, true, false, List, [], ◌∷◌, arith, length}
use pmem.Prelude.Result.{ok}
use pmem.Text.PersistentBuffer.{allocation_size, void_pointer, char_pointer, allocation_size_lem}
use pmem.Text.PersistentString.{construct, element, equals, equals_std}
use pmem.Text.PersistentString.Laws.{
  image, construct-image, element_lem, is_prefix, equals-prefix, equals_std_iff, equals_std-nul,
}

abbrev a_b : List ℕ
a_b = 65 ∷ 66 ∷ []

abbrev a : List ℕ
a = 65 ∷ []

allocation_size_example :
    (allocation_size void_pointer 2 ≡ 10)
    × ((10 ≤ allocation_size char_pointer 2) ↔ (length a_b ≡ 0))
allocation_size_example = allocation_size_lem a_b (omega arith)

string_construct_example : construct (65 ∷ 66 ∷ []) ≡ ok (image (65 ∷ 66 ∷ []))
string_construct_example = construct-image (65 ∷ 66 ∷ []) (omega arith)

string_element_example : element (image (65 ∷ 66 ∷ [])) 1 ≡ ok 66
string_element_example = element_lem (65 ∷ 66 ∷ []) 1 (omega arith)

-- "A" == "AB"
equals-prefix_example : equals (image (65 ∷ [])) (image (65 ∷ 66 ∷ [])) ≡ true
unfolding is_prefix
equals-prefix_example = equals-prefix (65 ∷ []) (65 ∷ 66 ∷ []) (refl, tt) (omega arith)

equals_std_example : (equals_std (image a) a ≡ true) ↔ (a ≡ a)
equals_std_example = equals_std_iff a a (refl, tt) (omega arith)

equals_std-nul_example : equals_std (image (65 ∷ 0 ∷ 66 ∷ [])) (65 ∷ 0 ∷ 66 ∷ []) ≡ false
equals_std-nul_example = equals_std-nul (65 ∷ []) (66 ∷ []) (65 ∷ 0 ∷ 66 ∷ []) (omega arith)
