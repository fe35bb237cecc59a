-- ===== src/Oid.antt =====
-- `PMEMoid`, the only data member of a persistent pointer (src/pmem/PersistentPtr.h, .cc).
use pmem.Prelude.{ℕ, ◌≡◌, ◌↔◌, Bool, true, ◌&&◌, ◌||◌, not, arith, ◌==◌}

pub record Oid : Type 0 where
  pub pool_uuid_lo : ℕ
  pub off : ℕ

abbrev pub oid_null : Oid
oid_null = record { pool_uuid_lo = 0; off = 0 }

-- `PersistentPtrBase::null`
abbrev pub null : Oid → Bool
null p = p.off == 0

-- `operator==` and `operator!=` of `PersistentPtr`
abbrev pub oid_eq : Oid → Oid → Bool
oid_eq lhs rhs = (lhs.off == rhs.off) && (lhs.pool_uuid_lo == rhs.pool_uuid_lo)

abbrev pub oid_ne : Oid → Oid → Bool
oid_ne lhs rhs = not (lhs.off == rhs.off) || not (lhs.pool_uuid_lo == rhs.pool_uuid_lo)

pub oid_eq_iff : (p q : Oid) → (oid_eq p q ≡ true) ↔ (p ≡ q)
oid_eq_iff p q = ground arith

-- The two comparisons of pointers are each other's negation, and `==` is equality.
pub oid_ne-not : (p q : Oid) → oid_ne p q ≡ not (oid_eq p q)
oid_ne-not p q = ground arith

pub oid_eq_self : (p : Oid) → oid_eq p p ≡ true
oid_eq_self p = ground arith
