-- ===== src/Tree/Shape.antt =====
-- What a tree of nodes stands for: its values, its keys and its data, with no addresses; and what
-- `TreeNode::lookup` and `TreeNode::addNode` mean for such a tree.
pub mod Added
pub mod Laws
pub mod Depth
use pmem.Prelude.{
  ℕ, zero, suc, Bool, true, false, ◌&&◌, Option, none, some, List, [], ◌∷◌, ◌++◌, String,
  if◌then◌else◌,
}
use Prim.Native.Nat.{max}
use pmem.Prelude.Result.{assertion_failed, leaf_exists, Result, ok, err}
use pmem.Tree.Schema.{StringDict, KeyType, find, same}

mutual
  pub data Tree : Type 0 where
    leaf : (value : String) → (blob : List ℕ) → Tree
    inner : (value key : String) → Trees → Tree

  pub data Trees : Type 0 where
    end : Trees
    more : Tree → Trees → Trees

abbrev pub value_of : Tree → String
value_of (leaf v blob) = v
value_of (inner v k ts) = v

abbrev pub is_leaf : Tree → Bool
is_leaf (leaf v blob) = true
is_leaf (inner v k ts) = false

-- Whether a sub-node's value is looked for: that of the key in the request, or any.
abbrev pub chosen : Option String → String → Bool
chosen none u = true
chosen (some v) u = same u v

-- The leaves that a lookup gives, in their order.
unfoldable mutual
  unfolding find

  pub matches : StringDict → Tree → List Tree
  matches request (leaf v blob) = leaf v blob ∷ []
  matches request (inner v k ts) = gather request (chosen (find k request)) ts

  pub gather : StringDict → (String → Bool) → Trees → List Tree
  gather request test end = []
  gather request test (more t ts) =
      (if test (value_of t) then matches request t else []) ++ gather request test ts

-- How many nodes with sub-nodes stand one below another.
unfoldable mutual
  pub depth : Tree → ℕ
  depth (leaf v blob) = 0
  depth (inner v k ts) = suc (depth_all ts)

  pub depth_all : Trees → ℕ
  depth_all end = 0
  depth_all (more t ts) = max (depth t) (depth_all ts)

-- The nodes of a chain of keys above one leaf.
unfoldable pub nested : String → KeyType → List ℕ → Tree
nested v [] blob = leaf v blob
nested v ((k, w) ∷ chain) blob = inner v k (more (nested w chain blob) end)

-- Every string of the chain is short enough.
abbrev pub all_fit : (String → Bool) → KeyType → Bool
all_fit fits [] = true
all_fit fits ((k, w) ∷ chain) = fits k && (fits w && all_fit fits chain)

abbrev pub with_first : Tree → Result Trees → Result Trees
with_first t (ok ts) = ok (more t ts)
with_first t (err e) = err e

abbrev pub with_rest : Trees → Result Tree → Result Trees
with_rest ts (ok t) = ok (more t ts)
with_rest ts (err e) = err e

abbrev pub with_head : String → String → Result Trees → Result Tree
with_head v k (ok ts) = ok (inner v k ts)
with_head v k (err e) = err e

abbrev pub alone : Result Tree → Result Trees
alone r = with_rest end r

-- The first sub-node with the value takes the rest of the key; with none, a new one is last.
unfoldable pub insert_in : (Tree → Result Tree) → String → Result Tree → Trees → Result Trees
insert_in go v new end = alone new
insert_in go v new (more t ts) =
    let rest = insert_in go v new ts in
    if same (value_of t) v
    then (if is_leaf t then err leaf_exists else with_rest ts (go t))
    else with_first t rest

abbrev pub fresh : (String → Bool) → String → KeyType → List ℕ → Result Tree
fresh fits v chain blob =
    if all_fit fits chain then ok (nested v chain blob) else err assertion_failed

unfoldable pub insert : (String → Bool) → KeyType → List ℕ → Tree → Result Tree
unfolding insert_in nested
insert fits [] blob t = err assertion_failed
insert fits ((k, v) ∷ chain) blob (leaf w old) = err assertion_failed
insert fits ((k, v) ∷ chain) blob (inner w key ts) =
    let below =
      with_head w key (insert_in (insert fits chain blob) v (fresh fits v chain blob) ts) in
    if fits k && (same key k && fits v) then below else err assertion_failed
