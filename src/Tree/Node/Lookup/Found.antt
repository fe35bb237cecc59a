-- ===== src/Tree/Node/Lookup/Found.antt =====
-- Addresses at which trees are.
use pmem.Prelude.{ℕ, ◌≡◌, true, List, [], ◌∷◌, ◌++◌, arith}
use pmem.Oid.{Oid}
use pmem.Memory.Objects.{State}
use pmem.Tree.Schema.{StringDict}
use pmem.Tree.Shape.{Tree, leaf, inner, is_leaf, matches}
use pmem.Tree.Rep.{Region, Rep}
use pmem.Tree.Rep.Alike.{Rep-AlikeOn}
use pmem.Tree.Rep.Quiet.{Quiet, Quiet-AlikeOn}

-- The addresses are those of the trees, each in a region of its own.
abbrev pub Found : (Oid → Type 0) → ℕ → State → List Oid → List Tree → Type 0
Found H b s [] [] = Unit {0}
Found H b s (c ∷ cs) (t ∷ ts) = ((A : Region) × Rep H b s A c t) × Found H b s cs ts
Found H b s _ _ = ⊥

module _ (H : Oid → Type 0) (b : ℕ) where
  pub Found-append :
      (s : State) (cs ds : List Oid) (ts us : List Tree)
      → Found H b s cs ts
      → Found H b s ds us
      → Found H b s (cs ++ ds) (ts ++ us)
  Found-append s [] ds [] us h k = k
  Found-append s (c ∷ cs) ds (t ∷ ts) us h k = (h.0, Found-append s cs ds ts us h.1 k)
  Found-append s [] ds (t ∷ ts) us h k = absurd h
  Found-append s (c ∷ cs) ds [] us h k = absurd h

  pub Found-Quiet :
      (s u : State) (cs : List Oid) (ts : List Tree)
      → Found H b s cs ts
      → Quiet s u
      → Found H b u cs ts
  Found-Quiet s u [] [] h quiet = tt
  Found-Quiet s u (c ∷ cs) (t ∷ ts) ((A, rep), h) quiet =
      ((A, Rep-AlikeOn rep (omega arith) (Quiet-AlikeOn A quiet)), Found-Quiet s u cs ts h quiet)
  Found-Quiet s u [] (t ∷ ts) h quiet = absurd h
  Found-Quiet s u (c ∷ cs) [] h quiet = absurd h

  pub Found-one :
      {s : State} {A : Region} {c : Oid} (request : StringDict) (t : Tree)
      → is_leaf t ≡ true
      → Rep H b s A c t
      → Found H b s (c ∷ []) (matches request t)
  unfolding matches
  Found-one {A} request (leaf v blob) is rep = ((A, rep), tt)
  Found-one request (inner v k ts) is rep = absurd (cc is)
