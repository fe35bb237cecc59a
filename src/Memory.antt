-- ===== src/Memory.antt =====
-- Persistent memory as the classes of src/pmem and src/pmem/tree use it: objects at addresses, and
-- calls that read and change them and may throw. What a call wrote before it throws stays written.
pub mod Objects
pub mod Access
pub mod Ends
pub mod Pmemobj
