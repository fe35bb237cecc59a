-- ===== src/Ptr.antt =====
-- Persistent pointers and the constructors of objects (src/pmem/PersistentPtr.h, PersistentPtr.cc,
-- AtomicConstructor.h, PersistentType.h).
pub mod Constructor
pub mod Location
pub mod Pointer
