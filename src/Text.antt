-- ===== src/Text.antt =====
-- Bytes and strings in persistent memory (src/pmem/PersistentBuffer.h, PersistentBuffer.cc,
-- PersistentString.h, PersistentString.cc).
pub mod PersistentBuffer
pub mod PersistentString
