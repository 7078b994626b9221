-- ===== src/BTree.antt =====
-- The B+ tree workload.
pub mod Store
pub mod Alloc
pub mod Find
pub mod Entries
pub mod Insert
pub mod Shrink
pub mod Tree
pub mod Workload
pub mod Map
pub mod Rand48
pub mod Delete
pub mod Tests
