-- ===== src/Prelude/Lists.antt =====
-- Lists measured and indexed by native numbers, under the library's names.
use Prim.Native.Nat.{ℕ, zero, suc, ◌+◌, ◌-◌, ◌≤◌, ◌<◌, min}
use mathlib.Core.Path.{◌≡◌, refl, ap}
use mathlib.Core.Logic.{◌≢◌}
use mathlib.Core.List.{List, [], ◌∷◌, ◌++◌}
use mathlib.Core.Option.{Option, none, some}
use native.Mathlib.Omega.{arith}

module _ {ℓ} {A : Type ℓ} where
  abbrev pub length : List A → ℕ
  length [] = 0
  length (x ∷ xs) = suc (length xs)

  abbrev pub get_elem? : List A → ℕ → Option A
  get_elem? [] i = none
  get_elem? (x ∷ xs) zero = some x
  get_elem? (x ∷ xs) (suc i) = get_elem? xs i

  -- A write out of bounds changes nothing.
  abbrev pub set : List A → ℕ → A → List A
  set [] i v = []
  set (x ∷ xs) zero v = v ∷ xs
  set (x ∷ xs) (suc i) v = x ∷ set xs i v

  abbrev pub take : ℕ → List A → List A
  take zero xs = []
  take (suc n) [] = []
  take (suc n) (x ∷ xs) = x ∷ take n xs

  abbrev pub drop : ℕ → List A → List A
  drop zero xs = xs
  drop (suc n) [] = []
  drop (suc n) (x ∷ xs) = drop n xs

  abbrev pub replicate : ℕ → A → List A
  replicate zero a = []
  replicate (suc n) a = a ∷ replicate n a

module _ {ℓ} {A : Type ℓ} where
  pub length-append : (xs ys : List A) → length (xs ++ ys) ≡ length xs + length ys
  length-append [] ys = omega arith
  length-append (x ∷ xs) ys = omega (arith, length-append xs ys)

  pub length-set : (xs : List A) (i : ℕ) (v : A) → length (set xs i v) ≡ length xs
  length-set [] i v = refl
  length-set (x ∷ xs) zero v = refl
  length-set (x ∷ xs) (suc i) v = ap suc (length-set xs i v)

  pub length-replicate : (n : ℕ) (a : A) → length (replicate n a) ≡ n
  length-replicate zero a = refl
  length-replicate (suc n) a = ap suc (length-replicate n a)

  pub length-take : (n : ℕ) (xs : List A) → length (take n xs) ≡ min n (length xs)
  length-take zero xs = omega arith
  length-take (suc n) [] = omega arith
  length-take (suc n) (x ∷ xs) = omega (arith, length-take n xs)

  pub get_elem?-set_self :
      (xs : List A) (i : ℕ) (v : A) → i < length xs → get_elem? (set xs i v) i ≡ some v
  get_elem?-set_self [] i v h = elim h [ ]
  get_elem?-set_self (x ∷ xs) zero v h = refl
  get_elem?-set_self (x ∷ xs) (suc i) v h = get_elem?-set_self xs i v (omega arith)

  pub get_elem?-set_ne :
      (xs : List A) (i j : ℕ) (v : A) → i ≢ j → get_elem? (set xs i v) j ≡ get_elem? xs j
  get_elem?-set_ne [] i j v h = refl
  get_elem?-set_ne (x ∷ xs) zero zero v h = absurd (h refl)
  get_elem?-set_ne (x ∷ xs) zero (suc j) v h = refl
  get_elem?-set_ne (x ∷ xs) (suc i) zero v h = refl
  get_elem?-set_ne (x ∷ xs) (suc i) (suc j) v h = get_elem?-set_ne xs i j v (λ e. h (ap suc e))

  pub get_elem?-some : (xs : List A) (i : ℕ) → i < length xs → (a : A) × (get_elem? xs i ≡ some a)
  get_elem?-some [] i h = elim h [ ]
  get_elem?-some (x ∷ xs) zero h = (x, refl)
  get_elem?-some (x ∷ xs) (suc i) h = get_elem?-some xs i (omega arith)

  pub take-length : (xs : List A) → take (length xs) xs ≡ xs
  take-length [] = refl
  take-length (x ∷ xs) = ap (λ ys. x ∷ ys) (take-length xs)

  pub get_elem?-some_append :
      (xs ys : List A) (i : ℕ) (a : A) → get_elem? xs i ≡ some a → get_elem? (xs ++ ys) i ≡ some a
  get_elem?-some_append [] ys i a h = cc
  get_elem?-some_append (x ∷ xs) ys zero a h = h
  get_elem?-some_append (x ∷ xs) ys (suc i) a h = get_elem?-some_append xs ys i a h

  pub get_elem?-append_left :
      (xs ys : List A) (i : ℕ) → i < length xs → get_elem? (xs ++ ys) i ≡ get_elem? xs i
  get_elem?-append_left [] ys i h = elim h [ ]
  get_elem?-append_left (x ∷ xs) ys zero h = refl
  get_elem?-append_left (x ∷ xs) ys (suc i) h = get_elem?-append_left xs ys i (omega arith)

  pub set-set : (xs : List A) (i : ℕ) (v w : A) → set (set xs i v) i w ≡ set xs i w
  set-set [] i v w = refl
  set-set (x ∷ xs) zero v w = refl
  set-set (x ∷ xs) (suc i) v w = ap (λ ys. x ∷ ys) (set-set xs i v w)

  -- A write at the first free place extends what stands before it.
  pub take-set :
      (xs : List A) (i : ℕ) (v : A)
      → i < length xs
      → take (suc i) (set xs i v) ≡ take i xs ++ v ∷ []
  take-set [] i v h = elim h [ ]
  take-set (x ∷ xs) zero v h = refl
  take-set (x ∷ xs) (suc i) v h = ap (λ ys. x ∷ ys) (take-set xs i v (omega arith))

  pub take-set_ge : (xs : List A) (i n : ℕ) (v : A) → n ≤ i → take n (set xs i v) ≡ take n xs
  take-set_ge xs i zero v h = refl
  take-set_ge [] i (suc n) v h = refl
  take-set_ge (x ∷ xs) zero (suc n) v h = absurd (omega arith)
  take-set_ge (x ∷ xs) (suc i) (suc n) v h = ap (λ ys. x ∷ ys) (take-set_ge xs i n v (omega arith))

  pub take-append : (n : ℕ) (xs ys : List A) → length xs ≡ n → take n (xs ++ ys) ≡ xs
  take-append zero [] ys h = refl
  take-append zero (x ∷ xs) ys h = absurd (omega arith)
  take-append (suc n) [] ys h = absurd (omega arith)
  take-append (suc n) (x ∷ xs) ys h = ap (λ zs. x ∷ zs) (take-append n xs ys (omega arith))

  -- A write just behind `xs`.
  pub set-append :
      (xs ys : List A) (y v : A) → set (xs ++ y ∷ ys) (length xs) v ≡ (xs ++ v ∷ []) ++ ys
  set-append [] ys y v = refl
  set-append (x ∷ xs) ys y v = ap (λ zs. x ∷ zs) (set-append xs ys y v)

  pub get_elem?-append : (xs ys : List A) (y : A) → get_elem? (xs ++ y ∷ ys) (length xs) ≡ some y
  get_elem?-append [] ys y = refl
  get_elem?-append (x ∷ xs) ys y = get_elem?-append xs ys y

  pub take-append-drop : (n : ℕ) (xs : List A) → take n xs ++ drop n xs ≡ xs
  take-append-drop zero xs = refl
  take-append-drop (suc n) [] = refl
  take-append-drop (suc n) (x ∷ xs) = ap (λ zs. x ∷ zs) (take-append-drop n xs)

  pub length-drop : (n : ℕ) (xs : List A) → length (drop n xs) ≡ length xs - n
  length-drop zero xs = omega arith
  length-drop (suc n) [] = omega arith
  length-drop (suc n) (x ∷ xs) = omega (arith, length-drop n xs)

  pub set-get_self : (xs : List A) (i : ℕ) (v : A) → get_elem? xs i ≡ some v → set xs i v ≡ xs
  set-get_self [] i v h = refl
  set-get_self (x ∷ xs) zero v h = cc
  set-get_self (x ∷ xs) (suc i) v h = ap (λ ys. x ∷ ys) (set-get_self xs i v h)

  pub get_elem?-none : (xs : List A) (i : ℕ) → length xs ≤ i → get_elem? xs i ≡ none
  get_elem?-none [] i h = refl
  get_elem?-none (x ∷ xs) zero h = absurd (omega arith)
  get_elem?-none (x ∷ xs) (suc i) h = get_elem?-none xs i (omega arith)

  pub set_ge : (xs : List A) (i : ℕ) (v : A) → length xs ≤ i → set xs i v ≡ xs
  set_ge [] i v h = refl
  set_ge (x ∷ xs) zero v h = absurd (omega arith)
  set_ge (x ∷ xs) (suc i) v h = ap (λ ys. x ∷ ys) (set_ge xs i v (omega arith))

  pub get_elem?-set-some :
      (xs : List A) (i : ℕ) (q v : A) → get_elem? xs i ≡ some q → get_elem? (set xs i v) i ≡ some v
  get_elem?-set-some [] i q v h = cc
  get_elem?-set-some (x ∷ xs) zero q v h = refl
  get_elem?-set-some (x ∷ xs) (suc i) q v h = get_elem?-set-some xs i q v h
