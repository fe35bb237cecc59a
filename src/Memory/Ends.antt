-- ===== src/Memory/Ends.antt =====
-- How a call ends: it returns a value with `P`, or throws an exception with `E`. Both conditions
-- speak of the state too, and neither holds of a call that does not end.
use pmem.Prelude.Result.{Error, Result, ok, err}
use pmem.Memory.Objects.{State}
use pmem.Memory.Access.{M, continue}

pub data Ends {A : Type 0} (P : A → State → Type 0) (E : Error → State → Type 0)
    : Result A × State → Type 0 where
  returns : {a : A} {t : State} → P a t → Ends P E (ok a, t)
  throws : {e : Error} {t : State} → E e t → Ends P E (err e, t)

module _ {A B : Type 0} {P : A → State → Type 0} {Q : B → State → Type 0}
    {E : Error → State → Type 0} where
  pub bind :
      {r : Result A × State} (f : A → M B)
      → Ends P E r
      → ((a : A) (t : State) → P a t → Ends Q E (f a t))
      → Ends Q E (continue r f)
  bind f (returns p) next = next _ _ p
  bind f (throws e) next = throws e

module _ {A : Type 0} {P Q : A → State → Type 0} {E F : Error → State → Type 0} where
  pub mono :
      {r : Result A × State}
      → Ends P E r
      → ((a : A) (t : State) → P a t → Q a t)
      → ((e : Error) (t : State) → E e t → F e t)
      → Ends Q F r
  mono (returns p) f g = returns (f _ _ p)
  mono (throws e) f g = throws (g _ _ e)
