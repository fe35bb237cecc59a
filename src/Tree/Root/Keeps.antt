-- ===== src/Tree/Root/Keeps.antt =====
-- `TreeObject`: what is added under a key is found under it.
use pmem.Prelude.{
  ℕ, ◌+◌, ◌*◌, ◌<◌, ◌≤◌, ◌≡◌, refl, ap, ◌∙◌, ◌⊎◌, Bool, true, false, Option, none, some, List, [],
  ◌∷◌, String, inl, inr, arith, ◌==◌, word, length,
}
use pmem.Prelude.Result.{Error, allocation_error, Result, ok, err}
use text.Mathlib.TextEquality.{eq_iff}
use pmem.Oid.{Oid, null}
use pmem.Memory.Objects.{PersistentPool, State}
use pmem.Memory.Access.{◌>>◌}
use pmem.Memory.Ends
use pmem.Memory.Ends.{Ends, returns, throws}
use pmem.Memory.Pmemobj.{Pmemobj}
use pmem.Pool.Registry.{Pools, find as find_pool}
use pmem.Text.PersistentBuffer
use pmem.Tree.Schema.{StringDict, KeyType, TreeSchema, same, find, process_insert_key}
use pmem.Tree.Schema.Laws.{Answers, process_insert_key_iff}
use pmem.Tree.Node.Create.{Home}
use pmem.Tree.Node.Lookup.Laws.{Fit}
use pmem.Tree.Node.Lookup.Found.{Found}
use pmem.Tree.Root.{add, lookup}
use pmem.Tree.Root.Planted.{Planted, plant, matching, with_chain}
use pmem.Tree.Root.Plant.{add_root-plant}
use pmem.Tree.Root.Search.{lookup-Found}
use pmem.Tree.Shape.{Tree, leaf, depth, matches, is_leaf}
use pmem.Tree.Shape.Added.{Added}
use pmem.Tree.Shape.Laws.{agrees, last_value, insert-Added, fresh_found}
use pmem.Tree.Shape.Depth.{depth-insert, fresh_depth}
use pmem.Tree.Rep.Alike.{Rep-AlikeOn, AlikeOn-refl}

same_self : (v : String) → same v v ≡ true
same_self v = (eq_iff v v).1 refl

-- A chain that a schema has made from a key has its values.
agrees_lem :
    (keys : List String) (inkey : StringDict) (chain : KeyType)
    → Answers keys inkey chain
    → agrees inkey chain ≡ true
agrees_lem [] inkey [] h = refl
agrees_lem (key ∷ keys) inkey ((k, v) ∷ chain) (same_e, found, rest) =
    let found' : find k inkey ≡ some v = rw same_e at found in
    rw found' (rw (same_self v) (agrees_lem keys inkey chain rest))
agrees_lem [] inkey (e ∷ chain) h = absurd h
agrees_lem (key ∷ keys) inkey [] h = absurd h

length_answers :
    (keys : List String) (inkey : StringDict) (chain : KeyType)
    → Answers keys inkey chain
    → length chain ≡ length keys
length_answers [] inkey [] h = refl
length_answers (key ∷ keys) inkey ((k, v) ∷ chain) h =
    omega (arith, length_answers keys inkey chain h.2)
length_answers [] inkey (e ∷ chain) h = absurd h
length_answers (key ∷ keys) inkey [] h = absurd h

abbrev pub old_depth : Option Tree → ℕ
old_depth none = 0
old_depth (some t) = depth t

-- What `addNode` adds to what a lookup finds, and how deep the tree can become.
plant_found :
    (fits : String → Bool) (blob : List ℕ) (request : StringDict) (old : Option Tree)
    (chain : KeyType) (t : Tree)
    → plant fits blob old chain ≡ ok t
    → ((u : Tree) → old ≡ some u → is_leaf u ≡ false)
    → agrees request chain ≡ true
    → Added (matching request old) (matches request t) (leaf (last_value "" chain) blob ∷ [])
plant_found fits blob request none [] t e inner agree = absurd (cc e)
plant_found fits blob request none ((k, v) ∷ chain) t e inner agree =
    let (val, found) = fresh_found fits request k ((k, v) ∷ chain) blob t e in
    rw found (rw agree (record { before = []; after = []; old_e = refl; new_e = refl }))
plant_found fits blob request (some u) chain t e inner agree =
    rw agree at (insert-Added fits request chain blob u t (inner u refl) e).1

depth-plant :
    (fits : String → Bool) (blob : List ℕ) (fuel : ℕ) (old : Option Tree) (chain : KeyType)
    (t : Tree)
    → plant fits blob old chain ≡ ok t
    → old_depth old ≤ fuel
    → length chain ≤ fuel
    → depth t ≤ fuel
depth-plant fits blob fuel none [] t e deep long = absurd (cc e)
depth-plant fits blob fuel none ((k, v) ∷ chain) t e deep long =
    omega (arith, fresh_depth fits k ((k, v) ∷ chain) blob t e, long)
depth-plant fits blob fuel (some u) chain t e deep long =
    (depth-insert fits fuel chain blob u t e deep long).0

module _ (lib : Pmemobj) (fits : String → Bool) (empty_e : fits "" ≡ true) (pool : PersistentPool)
    (open_pool : (pool.handle == 0) ≡ false) (os : List ℕ) (regs : Pools)
    (listed : find_pool pool.handle regs ≡ some pool) (b : ℕ) (positive : 0 < b)
    (small : b * 32 + 16 < word) (blob : List ℕ)
    (room : PersistentBuffer.HasRoom lib.usable_size blob) (p q : Oid) (home : Home lib pool os p)
    (alive : null p ≡ false) where
  inner_old :
      (old : Option Tree) (s : State)
      → Planted (Home lib pool os) b p q old s
      → (u : Tree) → old ≡ some u
      → is_leaf u ≡ false
  inner_old none s planted u e = absurd (cc e)
  inner_old (some t) s (r, rn, schema, live, A, out, owned, rep, is_inner) u e = cc (e, is_inner)

  kept_old :
      (old : Option Tree) (s : State)
      → Planted (Home lib pool os) b p q old s
      → Planted (Home lib pool os) (b * 2) p q old s
  kept_old none s planted = planted
  kept_old (some t) s (r, rn, schema, live, A, out, owned, rep, is_inner) = (
    r,
    rn,
    schema,
    live,
    A,
    out,
    owned,
    Rep-AlikeOn rep (omega arith) (AlikeOn-refl A s),
    is_inner,
  )

  -- The tree with the new leaf.
  abbrev pub Stored : StringDict → Option Tree → KeyType → List Oid → State → Type 0
  Stored key old chain r u =
      (found : List Tree) × Found (Home lib pool os) (b * 2) u r found
      × Added (matching key old) found (leaf (last_value "" chain) blob ∷ [])

  abbrev pub NotStored : TreeSchema → StringDict → Option Tree → Error → State → Type 0
  NotStored schema key old e u =
      ((e ≡ allocation_error)
        ⊎ (with_chain (process_insert_key schema key) (plant fits blob old) ≡ err e))
      × Planted (Home lib pool os) (b * 2) p q old u

  by_chain :
      (fuel : ℕ) (schema : TreeSchema) (key : StringDict) (old : Option Tree) (s : State)
      (c : Result KeyType)
      → ((k : String) → Fit fits (find k key))
      → Planted (Home lib pool os) b p q old s
      → s.opened ≡ os
      → s.registry ≡ regs
      → old_depth old ≤ fuel
      → length schema.keys ≤ fuel
      → process_insert_key schema key ≡ c
      → Ends
          (λ r u.
            (chain : KeyType) × (process_insert_key schema key ≡ ok chain)
            × Stored key old chain r u)
          (NotStored schema key old)
          ((do add lib fits schema p key blob; lookup lib fuel fits p key) s)
  unfolding add
  by_chain fuel schema key old s (err e) key_fits planted opened registered deep long is =
      rw is (throws (inr (ap (λ c. with_chain c (plant fits blob old)) is), kept_old old s planted))
  by_chain fuel schema key old s (ok chain) key_fits planted opened registered deep long is =
      let (same_length, answers) = (process_insert_key_iff schema key chain).0 is in
      let agree = agrees_lem schema.keys key chain answers in
      let short : length chain ≤ fuel =
        omega (arith, length_answers schema.keys key chain answers, long) in
      rw is (
        Ends.bind _
          (Ends.mono
            (add_root-plant lib fits empty_e pool open_pool os regs listed b positive small blob
              room p q home alive chain old s planted opened registered)
            (λ x u h. h)
            (λ e u (bad, h). (
              elim bad [
                | inl refused ↦ inl refused
                | inr bad_e ↦ inr (ap (λ c. with_chain c (plant fits blob old)) is ∙ bad_e)
              ],
              h,
            )))
          λ _ u (t, good, planted', opened', registered').
            Ends.mono
              (lookup-Found lib fits pool open_pool os p q (b * 2) key fuel t u key_fits planted'
                opened' (depth-plant fits blob fuel old chain t good deep short))
              (λ r w found. (
                chain,
                refl,
                (
                  matches key t,
                  found,
                  plant_found fits blob key old chain t good (inner_old old s planted) agree,
                ),
              ))
              (λ e w h. absurd h))

  -- For a root in a pool that is open and registered, with no tree or with one as in
  -- `add_node-insert` that the root is apart from, data that fit as there, an insertion key whose
  -- values fit, and a bound that neither the tree's depth nor the number of the schema's keys
  -- exceeds: `TreeObject::addNode` of the data under the key and then `TreeObject::lookup` of the
  -- same key give the addresses of the leaves that matched before, in their order, and among them
  -- a new leaf that has the data and the last value of the chain as its value. Or `addNode`
  -- throws an allocation error or what `processInsertKey` or the insertion gives, and the root
  -- has the tree from before.
  pub lookup-add :
      (fuel : ℕ) (schema : TreeSchema) (key : StringDict) (old : Option Tree) (s : State)
      → ((k : String) → Fit fits (find k key))
      → Planted (Home lib pool os) b p q old s
      → s.opened ≡ os
      → s.registry ≡ regs
      → old_depth old ≤ fuel
      → length schema.keys ≤ fuel
      → Ends
          (λ r u.
            (chain : KeyType) × (process_insert_key schema key ≡ ok chain)
            × Stored key old chain r u)
          (NotStored schema key old)
          ((do add lib fits schema p key blob; lookup lib fuel fits p key) s)
  lookup-add fuel schema key old s key_fits planted opened registered deep long =
      by_chain fuel schema key old s (process_insert_key schema key) key_fits planted opened
        registered deep long refl
