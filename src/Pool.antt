-- ===== src/Pool.antt =====
-- Memory pools (src/pmem/PersistentPool.h, PersistentPool.cc) and the registry of those that are
-- open (src/pmem/PoolRegistry.h, PoolRegistry.cc).
pub mod Registry
pub mod Files
pub mod PersistentPool
