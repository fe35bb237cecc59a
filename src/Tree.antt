-- ===== src/Tree.antt =====
-- The tree of the library's example: nodes in a pool, their schema, and the root that holds both
-- (src/pmem/tree).
pub mod Schema
pub mod Shape
pub mod Node
pub mod Rep
pub mod Root
pub mod Tool
