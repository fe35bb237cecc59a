-- ===== src/Vector/Data/Copy.antt =====
-- The copying loop of the constructors: the first `n` elements of the source.
use pmem.Prelude.{
  ℕ, zero, suc, ◌≤◌, ◌≡◌, refl, List, [], ◌∷◌, ◌++◌, arith, length, take, drop, append_assoc,
  set-append, get_elem?-append, length-append, length-take, take-append-drop,
}
use pmem.Prelude.Result.{ok}
use pmem.Vector.Data.{copy}

module _ {A : Type 0} where
  copy-append :
      (k : ℕ) (front mid rest old back : List A)
      → length mid ≡ k
      → length old ≡ k
      → copy k (length front) (front ++ (mid ++ rest)) (front ++ (old ++ back))
        ≡ ok (front ++ (mid ++ back))
  unfolding copy
  copy-append zero front [] rest [] back e f = refl
  copy-append zero front (x ∷ mid) rest old back e f = absurd (omega arith)
  copy-append zero front [] rest (y ∷ old) back e f = absurd (omega arith)
  copy-append (suc k) front [] rest old back e f = absurd (omega arith)
  copy-append (suc k) front (x ∷ mid) rest [] back e f = absurd (omega arith)
  copy-append (suc k) front (x ∷ mid) rest (y ∷ old) back e f = ground (
    arith,
    get_elem?-append front (mid ++ rest) x,
    set-append front (old ++ back) y x,
    copy-append k (front ++ x ∷ []) mid rest old back,
    length-append front (x ∷ []),
    append_assoc front (x ∷ []) (mid ++ rest),
    append_assoc front (x ∷ []) (mid ++ back),
  )

  pub copy_lem :
      (xs rest raw : List A)
      → length xs ≤ length raw
      → copy (length xs) 0 (xs ++ rest) raw ≡ ok (xs ++ drop (length xs) raw)
  copy_lem xs rest raw le = ground (
    arith,
    copy-append (length xs) [] xs rest (take (length xs) raw) (drop (length xs) raw),
    length-take (length xs) raw,
    take-append-drop (length xs) raw,
  )
