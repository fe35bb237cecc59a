-- ===== src/Tree/Node/Nest.antt =====
-- `allocateNested`: the chain of new nodes above a new leaf.
pub mod Above
pub mod Created
use pmem.Prelude.{
  ℕ, zero, suc, ◌+◌, ◌*◌, ◌<◌, ◌≤◌, ◌≡◌, refl, ap, sym, ◌∙◌, ◌⊎◌, inl, inr, Bool, true, false, ◌&&◌,
  Option, none, some, List, [], ◌∷◌, String, arith, Bool-cases, Option-cases, if◌then◌else◌, word,
  ◌==◌, length, get_elem?, get_elem?-some, drop,
}
use pmem.Prelude.Result.{ok}
use pmem.Memory.Objects.{State}
use pmem.Memory.Pmemobj.{Pmemobj}
use pmem.Tree.Schema.{KeyType}
use pmem.Tree.Node.{value_before}
use pmem.Tree.Shape.{nested, all_fit}

-- The value in front of the chain that is left.
abbrev pub value_at : String → KeyType → ℕ → String
value_at value chain zero = value
value_at value [] (suc i) = value
value_at value ((k, w) ∷ chain) (suc i) = value_at w chain i

pub drop_pair :
    (chain : KeyType) (i : ℕ) (e : String × String)
    → get_elem? chain i ≡ some e
    → drop i chain ≡ e ∷ drop (suc i) chain
drop_pair [] i e at = absurd (cc at)
drop_pair (f ∷ chain) zero e at = cc at
drop_pair (f ∷ chain) (suc i) e at = drop_pair chain i e at

pub value_at_pair :
    (value : String) (chain : KeyType) (i : ℕ) (k w : String)
    → get_elem? chain i ≡ some (k, w)
    → value_at value chain (suc i) ≡ w
value_at_pair value [] i k w at = absurd (cc at)
value_at_pair value ((j, u) ∷ chain) zero k w at = cc at
value_at_pair value ((j, u) ∷ chain) (suc i) k w at = value_at_pair u chain i k w at

pub drop_all : (chain : KeyType) → drop (length chain) chain ≡ []
drop_all [] = refl
drop_all (e ∷ chain) = drop_all chain

module _ (fits : String → Bool) where
  -- A chain that fits has pairs that fit.
  pub all_fit_at :
      (chain : KeyType) (i : ℕ) (k w : String)
      → all_fit fits chain ≡ true
      → get_elem? chain i ≡ some (k, w)
      → (fits k ≡ true) × (fits w ≡ true)
  all_fit_at [] i k w h at = absurd (cc at)
  all_fit_at ((j, u) ∷ chain) zero k w h at = ground (arith, at)
  all_fit_at ((j, u) ∷ chain) (suc i) k w h at = all_fit_at chain i k w (ground arith) at

  pub value_fits :
      (value : String) (chain : KeyType) (i : ℕ)
      → fits value ≡ true
      → all_fit fits chain ≡ true
      → i ≤ length chain
      → fits (value_at value chain i) ≡ true
  value_fits value chain zero h k le = h
  value_fits value [] (suc i) h k le = h
  value_fits value ((j, u) ∷ chain) (suc i) h k le =
      value_fits u chain i (ground arith) (ground arith) (omega (arith, le))

  -- `value_before` is in range.
  pub value_before_lem :
      (lib : Pmemobj) (value : String) (chain : KeyType) (i : ℕ) (s : State)
      → i ≤ length chain
      → value_before lib fits value chain i s ≡ (ok (value_at value chain i), s)
  unfolding value_before
  value_before_lem lib value chain zero s le = refl
  value_before_lem lib value chain (suc i) s le =
      let ((k, w), at) = get_elem?-some chain i (omega (arith, le)) in
      ground (arith, at, value_at_pair value chain i k w at)
