-- ===== src/Memory/Objects.antt =====
-- The objects that the program keeps in persistent memory, and the state that its calls change.
use pmem.Prelude.{ℕ, Bool, Option, List, String}
use pmem.Oid.{Oid}
use pmem.Vector.Data.{VectorData}

-- `PersistentBuffer`: the length, and the bytes behind it.
pub record Buffer : Type 0 where
  pub length : ℕ
  pub bytes : List ℕ

-- `TreeNode`: `items` is the pointer inside the vector of children.
pub record TreeNode : Type 0 where
  pub items : Oid
  pub payload : Oid
  pub value : String
  pub key : String

-- `TreeRoot`
pub record TreeRoot : Type 0 where
  pub tag : String
  pub node : Oid
  pub schema : Oid

-- `uninit` is an allocation before its constructor has run; `values` are the data of a vector of
-- plain values, each written as the number that its bytes make.
pub data Content : Type 0 where
  uninit : Content
  buffer : Buffer → Content
  vector : VectorData Oid → Content
  values : VectorData ℕ → Content
  node : TreeNode → Content
  root : TreeRoot → Content

-- An allocation: the type number and the number of bytes that it was made with.
pub record Object : Type 0 where
  pub type_num : ℕ
  pub size : ℕ
  pub content : Content

-- A call of `pmemobj_persist`: bytes of an object that are written back.
pub record Flush : Type 0 where
  pub object : Oid
  pub bytes : ℕ

-- `PersistentPool`. A handle is a `PMEMobjpool*`, and 0 is the null pointer.
pub record PersistentPool : Type 0 where
  pub path : String
  pub handle : ℕ
  pub new_pool : Bool
  pub size : ℕ

-- `opened` lists the pools that libpmemobj has mapped; `registry` is the program's `PoolRegistry`.
pub record State : Type 0 where
  pub heap : Oid → Option Object
  pub flushes : List Flush
  pub opened : List ℕ
  pub registry : List (ℕ × PersistentPool)
