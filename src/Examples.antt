-- ===== src/Examples.antt =====
-- The theorems at concrete inputs: a small libpmemobj, small files, and runs on them.
mod Library
mod Vectors
mod Values
mod Pointers
mod Texts
mod Pools
mod Trees
mod Search
mod PushData
mod Lookups
mod WholeTree
mod Keeps
mod Overflow
