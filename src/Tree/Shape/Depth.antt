-- ===== src/Tree/Shape/Depth.antt =====
-- How deep an insertion makes a tree.
use pmem.Prelude.{
  ℕ, zero, suc, ◌≤◌, ◌≡◌, refl, sym, Bool, false, List, [], ◌∷◌, String, inl, inr, Bool-cases,
  arith, length,
}
use pmem.Prelude.Result.{Result, ok, err}
use pmem.Tree.Schema.{KeyType, same}
use pmem.Tree.Shape.{
  Tree, leaf, inner, Trees, end, more, value_of, is_leaf, nested, all_fit, insert_in, insert, fresh,
  with_first, with_rest, with_head, depth, depth_all,
}
use pmem.Tree.Shape.Laws.{guard_lem}

pub depth-nested :
    (v : String) (chain : KeyType) (blob : List ℕ) → depth (nested v chain blob) ≤ length chain
unfolding nested depth
depth-nested v [] blob = omega arith
depth-nested v ((k, w) ∷ chain) blob = omega (arith, depth-nested w chain blob)

module _ (n : ℕ) (v : String) (go : Tree → Result Tree) (new : Result Tree)
    (go_lem : (t t' : Tree) → go t ≡ ok t' → depth t ≤ n → depth t' ≤ n)
    (new_lem : (t : Tree) → new ≡ ok t → depth t ≤ n) where
  rest_depth :
      (ts ts' : Trees) (r : Result Tree)
      → ((t : Tree) → r ≡ ok t → depth t ≤ n)
      → depth_all ts ≤ n
      → with_rest ts r ≡ ok ts'
      → depth_all ts' ≤ n
  unfolding depth_all
  rest_depth ts ts' (ok t) small le e =
      let made : ts' ≡ more t ts = cc e in rw made (omega (arith, small t refl, le))
  rest_depth ts ts' (err x) small le e = absurd (cc e)

  first_depth :
      (t : Tree) (ts' : Trees) (r : Result Trees)
      → ((us : Trees) → r ≡ ok us → depth_all us ≤ n)
      → depth t ≤ n
      → with_first t r ≡ ok ts'
      → depth_all ts' ≤ n
  unfolding depth_all
  first_depth t ts' (ok us) small le e =
      let made : ts' ≡ more t us = cc e in rw made (omega (arith, small us refl, le))
  first_depth t ts' (err x) small le e = absurd (cc e)

  depth-insert_in :
      (ts ts' : Trees) → insert_in go v new ts ≡ ok ts' → depth_all ts ≤ n → depth_all ts' ≤ n
  unfolding insert_in depth_all
  depth-insert_in end ts' e le = rest_depth end ts' new new_lem le e
  depth-insert_in (more t ts) ts' e le = elim (Bool-cases (same (value_of t) v)) [
    | inl same_e ↦ elim (Bool-cases (is_leaf t)) [
      | inl leaf_e ↦ absurd (cc (rw (same_e, leaf_e) at e))
      | inr inner_e ↦
          rest_depth ts ts' (go t) (λ u is. go_lem t u is (omega (arith, le))) (omega (arith, le))
            (rw (same_e, inner_e) at e)
    ]
    | inr other_e ↦
        first_depth t ts' (insert_in go v new ts)
          (λ us is. depth-insert_in ts us is (omega (arith, le))) (omega (arith, le))
          (rw other_e at e)
  ]

-- A node with other sub-nodes.
headed_depth :
    (n : ℕ) (w key : String) (r : Result Trees) (t' : Tree)
    → ((ts' : Trees) → r ≡ ok ts' → depth_all ts' ≤ n)
    → with_head w key r ≡ ok t'
    → (depth t' ≤ suc n) × (is_leaf t' ≡ false)
unfolding depth
headed_depth n w key (ok ts') t' small e =
    let made : t' ≡ inner w key ts' = cc e in rw made (omega (arith, small ts' refl), refl)
headed_depth n w key (err x) t' small e = absurd (cc e)

module _ (fits : String → Bool) where
  pub fresh_depth :
      (v : String) (chain : KeyType) (blob : List ℕ) (t : Tree)
      → fresh fits v chain blob ≡ ok t
      → depth t ≤ length chain
  fresh_depth v chain blob t e = elim (Bool-cases (all_fit fits chain)) [
    | inl yes_e ↦
        let is : nested v chain blob ≡ t = cc (rw yes_e at e) in
        rw (sym is) (depth-nested v chain blob)
    | inr no_e ↦ absurd (cc (rw no_e at e))
  ]

  -- An insertion makes the tree no deeper than the chain is long, or than the tree was.
  pub depth-insert :
      (n : ℕ) (chain : KeyType) (blob : List ℕ) (t t' : Tree)
      → insert fits chain blob t ≡ ok t'
      → depth t ≤ n
      → length chain ≤ n
      → (depth t' ≤ n) × (is_leaf t' ≡ false)
  unfolding insert depth
  depth-insert n [] blob t t' e deep long = absurd (cc e)
  depth-insert n ((k, v) ∷ chain) blob (leaf w old) t' e deep long = absurd (cc e)
  depth-insert zero ((k, v) ∷ chain) blob (inner w key ts) t' e deep long =
      absurd (omega (arith, long))
  depth-insert (suc n) ((k, v) ∷ chain) blob (inner w key ts) t' e deep long =
      let (same_e, e') = guard_lem (fits k) (same key k) (fits v) t' _ e in
      headed_depth n w key _ t'
        (λ ts' good.
          depth-insert_in n v (insert fits chain blob) (fresh fits v chain blob)
            (λ u u' good' le. (depth-insert n chain blob u u' good' le (omega (arith, long))).0)
            (λ u is. omega (arith, fresh_depth v chain blob u is, long)) ts ts' good
            (omega (arith, deep)))
        e'
