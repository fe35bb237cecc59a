-- ===== src/Memory/Access.antt =====
-- Calls that may throw, and the reads and writes of objects that they are made of.
use pmem.Prelude.{
  ℕ, ◌≡◌, Bool, true, false, Option, none, some, List, [], ◌∷◌, ◌++◌, if◌then◌else◌, arith,
}
use pmem.Prelude.Result.{Error, assertion_failed, fault, Result, ok, err}
use pmem.Oid.{Oid, oid_eq}
use pmem.Vector.Data.{VectorData, Event, flush_elem, flush_nelem, Method}
use pmem.Memory.Objects.{Content, vector, Object, Flush, State}

abbrev pub M : Type 0 → Type 0
M A = State → Result A × State

module _ {A : Type 0} where
  abbrev pub pure : A → M A
  pure a s = (ok a, s)

  abbrev pub throw : Error → M A
  throw e s = (err e, s)

  abbrev pub lift : Result A → M A
  lift r s = (r, s)

module _ {A B : Type 0} where
  abbrev pub continue : Result A × State → (A → M B) → Result B × State
  continue (ok a, s) f = f a s
  continue (err e, s) f = (err e, s)

  infixl 5 ◌>>=◌ ◌>>◌
  abbrev pub ◌>>=◌ : M A → (A → M B) → M B
  ◌>>=◌ m f s = continue (m s) f

  abbrev pub ◌>>◌ : M A → M B → M B
  m >> n = m >>= λ _. n

abbrev pub assert : Bool → M (Unit {0})
assert true s = (ok tt, s)
assert false s = (err assertion_failed, s)

abbrev pub gets : {A : Type 0} → (State → A) → M A
gets f s = (ok (f s), s)

-- The heap with `o` at `p`.
unfoldable pub update : (Oid → Option Object) → Oid → Option Object → Oid → Option Object
update h p o q = if oid_eq p q then o else h q

abbrev pub set_object : Oid → Option Object → State → State
set_object p o s = record s { heap = update s.heap p o }

-- The object that a pointer leads to; there is none where it is null or dangling.
unfoldable pub load : Oid → M Object
load p s = elim (s.heap p) [ none ↦ (err fault, s) | some o ↦ (ok o, s) ]

-- A write to an object that is there.
unfoldable pub store : Oid → Content → M (Unit {0})
unfolding load
store p c = do o ← load p; λ s. (ok tt, set_object p (some (record o { content = c })) s)

-- `pmemobj_persist`
abbrev pub persist : Oid → ℕ → M (Unit {0})
persist p bytes s =
    (ok tt, record s { flushes = s.flushes ++ record { object = p; bytes = bytes } ∷ [] })

-- The flushes among the events of a vector's method: `sizeof(PMEMoid)` or `sizeof(size_t)` bytes.
unfoldable pub flushes_of : Oid → List (Event Oid) → List Flush
flushes_of p [] = []
flushes_of p (flush_elem i ∷ es) = record { object = p; bytes = 16 } ∷ flushes_of p es
flushes_of p (flush_nelem ∷ es) = record { object = p; bytes = 8 } ∷ flushes_of p es
flushes_of p (e ∷ es) = flushes_of p es

-- The state after a method has run on the vector at `p`.
abbrev pub with_vector : Oid → Object → VectorData Oid → List (Event Oid) → State → State
with_vector p o d es s = record s {
  heap = update s.heap p (some (record o { content = vector d }));
  flushes = s.flushes ++ flushes_of p es;
}

on_content : {B : Type 0} → Oid → Method Oid B → Object → Content → M B
on_content p m o (vector d) s =
    let (r, t) = m (record { now = d; events = [] }) in (r, with_vector p o t.now t.events s)
on_content p m o _ s = (err fault, s)

-- A method runs on the vector at `p`; on anything else its effect is undefined.
unfoldable pub on_vector : {B : Type 0} → Oid → Method Oid B → M B
unfolding load on_content
on_vector p m = do o ← load p; on_content p m o o.content

-- A vector's method that is run on a known vector.
pub on_vector_lem :
    {B : Type 0} (p : Oid) (m : Method Oid B) (o : Object) (d : VectorData Oid) (s : State)
    → s.heap p ≡ some o
    → o.content ≡ vector d
    → on_vector p m s
      ≡ (let t = m (record { now = d; events = [] }) in (t.0, with_vector p o t.1.now t.1.events s))
unfolding on_vector
on_vector_lem p m o d s e c = ground arith

pub store_lem :
    (p : Oid) (c : Content) (o : Object) (s : State)
    → s.heap p ≡ some o
    → store p c s ≡ (ok tt, set_object p (some (record o { content = c })) s)
unfolding store load
store_lem p c o s e = ground arith
