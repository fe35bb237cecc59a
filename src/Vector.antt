-- ===== src/Vector.antt =====
-- The data of a persistent vector (`PersistentVectorData` of src/pmem/PersistentVector.h and
-- `PersistentPODVectorData` of src/pmem/PersistentPODVector.h), which lies in one allocation.
-- A method runs on the data and writes down each store and each flush (`pmemobj_persist`).
pub mod Crash
pub mod Data
pub mod Pod
pub mod Pointer
