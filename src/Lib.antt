-- ===== src/Lib.antt =====
-- pmem: persistent pointers, vectors, strings and pools over libpmemobj, and the tree that is built
-- from them.
--
-- The program keeps objects in persistent memory, which libpmemobj maps, allocates and flushes. A
-- `PersistentPtr` names an object by a `PMEMoid`; an `AtomicConstructor` fills an object while it is
-- allocated; a `PersistentVector` is a pointer to an array of pointers, which is copied into a larger
-- one when it is full; the pools that are open stand in a registry, by which a persistent object
-- finds its pool. A tree of nodes, each with a vector of sub-nodes or with data, hangs from the root
-- of a pool, with the schema that orders the keys of an insertion.
--
-- Which module is about which code:
--   Oid                 PMEMoid and its comparisons (src/pmem/PersistentPtr.h, .cc)
--   Vector.Data         the members of the vector data, and stores and flushes as events
--   Vector.Pointer      PersistentVectorData (src/pmem/PersistentVector.h)
--   Vector.Pod          PersistentPODVectorData (src/pmem/PersistentPODVector.h)
--   Vector.Crash        power failures: a relation on what the cache and the memory hold
--   Memory.Objects      the objects and the state: the heap, the flushes, the pools
--   Memory.Access       calls that may throw; reads, writes and flushes of objects
--   Memory.Ends         how a call ends
--   Memory.Pmemobj      the calls of libpmemobj on objects, with what its documentation says
--   Ptr.Constructor     AtomicConstructor and pmem_constructor (src/pmem/AtomicConstructor.h,
--                       AtomicConstructorCast.h, PersistentPtr.cc, PersistentType.h)
--   Ptr.Location        the pointers that lie inside objects
--   Ptr.Pointer         PersistentPtr: allocation, replacement, access
--   PersistentVector    PersistentVector: first allocation, growth, push, access
--   PersistentPodVector PersistentPODVector (src/pmem/PersistentPODVector.h): the same for values
--   Text                PersistentBuffer and PersistentString
--   Pool.Registry       PoolRegistry
--   Pool.Files          the calls of libpmemobj and the system on pool files
--   Pool.PersistentPool PersistentPool
--   Tree.Schema         TreeSchema (src/pmem/tree/TreeSchema.h, .cc)
--   Tree.Node           TreeNode (src/pmem/tree/TreeNode.h, .cc), its addNode in Tree.Node.Add, its
--                       lookup in Tree.Node.Lookup, its allocateNested in Tree.Node.Create and
--                       Tree.Node.Nest, and its printTree in Tree.Node.Print
--   Tree.Shape          trees without addresses, and what an insertion and a lookup mean for them
--   Tree.Rep            when objects are the nodes of such a tree, and what a call leaves of it
--   Tree.Root           TreeRoot, TreeObject and TreePool (src/pmem/tree/TreeRoot.h, .cc,
--                       TreePool.h, .cc)
--   Tree.Tool           TreeTool (src/pmem/tree/TreeTool.cc)
--   Examples            the theorems at concrete inputs, on a small libpmemobj
--
-- A method of a vector's data is a function on an image: the data as the processor sees them and the
-- stores and flushes so far. A call that works on several objects is a function on the state, whose
-- heap maps each `PMEMoid` to an object or to none. Both may end with an error, one for each class
-- of exception, and with `fault` where C++ leaves the behaviour undefined: a dangling pointer, an
-- index outside an allocation. A C++ reference to a pointer inside an object is a location.
--
-- `size_t` and `uint64_t` are natural numbers below 2^64, with the remainder written out where the
-- program adds or multiplies. Loops over slots are structural recursion on the rounds that are left.
-- The loops of the tree that ask for the size again in each round have a bound, one more than the
-- number of slots, which is enough since the size never is larger; `lookup` and `printTree` take a
-- bound of the depth. A tree that an insertion changes is no deeper than it was or than the chain of
-- keys is long.
--
-- A tree of nodes stands for a tree without addresses if its objects lie in a region, and each node,
-- its vector and its sub-nodes lie in parts of it that have no address in common. Objects are alike
-- if they are the same but for a vector's count, which reading may mend.
--
-- A block may have more bytes than were asked for, and a caller may use them, as the documentation
-- of pmemobj_alloc_usable_size says; a copy beyond them is a fault. How many there are is a
-- parameter, `usable_size`. allocateLeaf and TreeRoot::Constructor ask for `sizeof(PersistentBuffer)`
-- bytes only, whatever they copy, so their theorems say that the bytes fit, and Tree.Node.Overflow
-- is about data that do not.
--
-- When the power fails, a count is written back whole or not at all; of the two words of a slot's
-- `PMEMoid` one may have arrived without the other, and a plain value may be torn in any way.
--
-- libpmemobj, the file system, eckit's fixed strings, JSON and what new memory holds are parameters;
-- the laws that the theorems use of them are the fields of `Pmemobj` and `Files`, or hypotheses. Not
-- modelled: PersistentMutex, the log messages, the texts of exceptions, and
-- src/pmem/tree/TreeMultIO.cc, which is not built. Of the command line tool, the options and the
-- files that they name are given.
pub mod Prelude
pub mod Oid
pub mod Vector
pub mod Memory
pub mod Ptr
pub mod Text
pub mod Pool
pub mod PersistentVector
pub mod PersistentPodVector
pub mod Tree
pub mod Examples
