-- ===== src/Tree/Shape/Laws.antt =====
-- What an insertion adds to the leaves that a lookup gives.
use pmem.Prelude.{
  ℕ, ◌≡◌, refl, ap, sym, Bool, true, false, ◌&&◌, List, [], ◌∷◌, ◌++◌, String, inl, inr, Bool-cases,
  if◌then◌else◌, append-nil,
}
use pmem.Prelude.Result.{assertion_failed, Result, ok, err}
use text.Mathlib.TextEquality.{eq_iff}
use pmem.Tree.Schema.{StringDict, KeyType, find, same}
use pmem.Tree.Shape.Added.{Added, Added-none, Added-append, Added-prepend}
use pmem.Tree.Shape.{
  Tree, leaf, inner, Trees, end, more, value_of, is_leaf, chosen, matches, gather, nested, all_fit,
  insert_in, insert, fresh, alone, with_first, with_rest, with_head,
}

-- The request has the value of each key of the chain, where it has a value for the key.
abbrev pub agrees : StringDict → KeyType → Bool
agrees request [] = true
agrees request ((k, v) ∷ chain) = chosen (find k request) v && agrees request chain

-- The last value of the chain, which is that of the new leaf.
abbrev pub last_value : String → KeyType → String
last_value v [] = v
last_value v ((k, w) ∷ chain) = last_value w chain

value_of-nested :
    (v : String) (chain : KeyType) (blob : List ℕ) → value_of (nested v chain blob) ≡ v
unfolding nested
value_of-nested v [] blob = refl
value_of-nested v ((k, w) ∷ chain) blob = refl

-- What a request finds in a new sub-tree.
abbrev pub new_leaves : StringDict → String → KeyType → List ℕ → List Tree
new_leaves request v chain blob =
    if agrees request chain then leaf (last_value v chain) blob ∷ [] else []

pub matches-nested :
    (request : StringDict) (v : String) (chain : KeyType) (blob : List ℕ)
    → matches request (nested v chain blob) ≡ new_leaves request v chain blob
unfolding nested matches gather
matches-nested request v [] blob = refl
matches-nested request v ((k, w) ∷ chain) blob =
    let below = matches-nested request w chain blob in
    elim (Bool-cases (chosen (find k request) w)) [
      | inl yes_e ↦
          rw (value_of-nested w chain blob)
            (rw (yes_e, append-nil (matches request (nested w chain blob))) below)
      | inr no_e ↦ rw (value_of-nested w chain blob) (rw no_e refl)
    ]

module _ (request : StringDict) (test : String → Bool) (v : String) (extra : List Tree)
    (go : Tree → Result Tree) (new : Result Tree)
    (go_lem : (t t' : Tree)
      → is_leaf t ≡ false
      → go t ≡ ok t'
      → (value_of t' ≡ value_of t) × Added (matches request t) (matches request t') extra)
    (new_lem : (t : Tree) → new ≡ ok t → (value_of t ≡ v) × (matches request t ≡ extra)) where
  abbrev shown : List Tree
  shown = if test v then extra else []

  -- What a sub-node shows.
  abbrev part : Tree → List Tree
  part t = if test (value_of t) then matches request t else []

  part_new : (t : Tree) → new ≡ ok t → part t ≡ shown
  part_new t is = let (val, same_e) = new_lem t is in rw (val, same_e) refl

  alone-Added :
      (r : Result Tree) (ts' : Trees)
      → new ≡ r
      → alone r ≡ ok ts'
      → Added [] (gather request test ts') shown
  unfolding gather
  alone-Added (ok t) ts' is e =
      let made : ts' ≡ more t end = cc e in
      rw made (record {
        before = [];
        after = [];
        old_e = refl;
        new_e = ap (λ l. l ++ []) (part_new t is);
      })
  alone-Added (err x) ts' is e = absurd (cc e)

  -- The sub-node with the value has changed.
  changed-Added :
      (t : Tree) (ts ts' : Trees) (r : Result Tree)
      → same (value_of t) v ≡ true
      → is_leaf t ≡ false
      → go t ≡ r
      → with_rest ts r ≡ ok ts'
      → Added (gather request test (more t ts)) (gather request test ts') shown
  unfolding gather
  changed-Added t ts ts' (ok t') same_e inner_e is e =
      let made : ts' ≡ more t' ts = cc e in
      let (val, added) = go_lem t t' inner_e is in
      let is_v : value_of t ≡ v = (eq_iff (value_of t) v).0 same_e in
      rw made (
        Added-append (gather request test ts) (
          rw (val, is_v)
            (elim (Bool-cases (test v)) [
              | inl yes_e ↦ rw yes_e added
              | inr no_e ↦ rw no_e (Added-none [])
            ])))
  changed-Added t ts ts' (err x) same_e inner_e is e = absurd (cc e)

  other-Added :
      (t : Tree) (ts ts' : Trees) (r : Result Trees)
      → ((us : Trees) → r ≡ ok us → Added (gather request test ts) (gather request test us) shown)
      → with_first t r ≡ ok ts'
      → Added (gather request test (more t ts)) (gather request test ts') shown
  unfolding gather
  other-Added t ts ts' (ok us) below e =
      let made : ts' ≡ more t us = cc e in rw made (Added-prepend (part t) (below us refl))
  other-Added t ts ts' (err x) below e = absurd (cc e)

  insert_in-Added :
      (ts ts' : Trees)
      → insert_in go v new ts ≡ ok ts'
      → Added (gather request test ts) (gather request test ts') shown
  unfolding insert_in gather
  insert_in-Added end ts' e = alone-Added new ts' refl e
  insert_in-Added (more t ts) ts' e = elim (Bool-cases (same (value_of t) v)) [
    | inl same_e ↦ elim (Bool-cases (is_leaf t)) [
      | inl leaf_e ↦ absurd (cc (rw (same_e, leaf_e) at e))
      | inr inner_e ↦ changed-Added t ts ts' (go t) same_e inner_e refl (rw (same_e, inner_e) at e)
    ]
    | inr other_e ↦
        other-Added t ts ts' (insert_in go v new ts) (λ us is. insert_in-Added ts us is)
          (rw other_e at e)
  ]

-- What a request finds of an insertion.
abbrev pub found_of : StringDict → KeyType → List ℕ → List Tree
found_of request chain blob = new_leaves request "" chain blob

pub guard_lem :
    (a b c : Bool) (t' : Tree) (r : Result Tree)
    → (if a && (b && c) then r else err assertion_failed) ≡ ok t'
    → (b ≡ true) × (r ≡ ok t')
guard_lem true true true t' r e = (refl, e)
guard_lem true true false t' r e = absurd (cc e)
guard_lem true false c t' r e = absurd (cc e)
guard_lem false b c t' r e = absurd (cc e)

abbrev shown_of : StringDict → String → String → KeyType → List ℕ → List Tree
shown_of request k v chain blob =
    if chosen (find k request) v then new_leaves request v chain blob else []

-- A node with other sub-nodes.
headed :
    (request : StringDict) (w key : String) (ts : Trees) (t' : Tree) (r : Result Trees)
    (extra : List Tree)
    → ((ts' : Trees)
        → r ≡ ok ts'
        → Added
            (gather request (chosen (find key request)) ts)
            (gather request (chosen (find key request)) ts')
            extra)
    → with_head w key r ≡ ok t'
    → (value_of t' ≡ w) × Added (matches request (inner w key ts)) (matches request t') extra
unfolding matches
headed request w key ts t' (ok ts') extra below e =
    let made : t' ≡ inner w key ts' = cc e in rw made (refl, below ts' refl)
headed request w key ts t' (err x) extra below e = absurd (cc e)

shown_lem :
    (request : StringDict) (k v : String) (chain : KeyType) (blob : List ℕ)
    → shown_of request k v chain blob ≡ found_of request ((k, v) ∷ chain) blob
shown_lem request k v chain blob = elim (Bool-cases (chosen (find k request) v)) [
  | inl yes_e ↦ rw yes_e refl
  | inr no_e ↦ rw no_e refl
]

module _ (fits : String → Bool) (request : StringDict) where
  pub fresh_found :
      (v : String) (chain : KeyType) (blob : List ℕ) (t : Tree)
      → fresh fits v chain blob ≡ ok t
      → (value_of t ≡ v) × (matches request t ≡ new_leaves request v chain blob)
  fresh_found v chain blob t e = elim (Bool-cases (all_fit fits chain)) [
    | inl yes_e ↦
        let is : nested v chain blob ≡ t = cc (rw yes_e at e) in
        rw (sym is) (value_of-nested v chain blob, matches-nested request v chain blob)
    | inr no_e ↦ absurd (cc (rw no_e at e))
  ]

  -- No key is left only where the insertion fails.
  found_below :
      (v : String) (chain : KeyType) (blob : List ℕ) (t t' : Tree)
      → insert fits chain blob t ≡ ok t'
      → found_of request chain blob ≡ new_leaves request v chain blob
  unfolding insert
  found_below v [] blob t t' e = absurd (cc e)
  found_below v ((k, w) ∷ chain) blob t t' e = refl

  -- x
  pub insert-Added :
      (chain : KeyType) (blob : List ℕ) (t t' : Tree)
      → is_leaf t ≡ false
      → insert fits chain blob t ≡ ok t'
      → (value_of t' ≡ value_of t)
        × Added (matches request t) (matches request t') (found_of request chain blob)
  unfolding insert matches
  insert-Added [] blob t t' is_inner e = absurd (cc e)
  insert-Added ((k, v) ∷ chain) blob (leaf w old) t' is_inner e = absurd (cc is_inner)
  insert-Added ((k, v) ∷ chain) blob (inner w key ts) t' is_inner e =
      let (same_e, e') = guard_lem (fits k) (same key k) (fits v) t' _ e in
      let key_e : key ≡ k = (eq_iff key k).0 same_e in
      let below : (ts' : Trees)
          → insert_in (insert fits chain blob) v (fresh fits v chain blob) ts ≡ ok ts'
          → Added (gather request (chosen (find key request)) ts)
              (gather request (chosen (find key request)) ts')
              (found_of request ((k, v) ∷ chain) blob) =
        λ ts' good.
          rw (key_e, sym (shown_lem request k v chain blob))
            (insert_in-Added request (chosen (find k request)) v (new_leaves request v chain blob)
              (insert fits chain blob) (fresh fits v chain blob)
              (λ u u' inner_e good'.
                let (val, added) = insert-Added chain blob u u' inner_e good' in
                (val, rw (found_below v chain blob u u' good') at added))
              (fresh_found v chain blob) ts ts' good) in
      headed request w key ts t' _ _ below e'
