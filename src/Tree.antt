-- ===== src/Tree.antt =====
-- internal/storage/btree.go: the tree of pages over the buffer manager.
pub mod Pages
pub mod Held
pub mod FreeList
pub mod FreeStack
pub mod Pop
pub mod Allocate
pub mod Overflow
pub mod Descend
pub mod Route
pub mod ReadChain
pub mod Chunk
pub mod Link
pub mod CreateChain
pub mod ReadHeld
pub mod Chain
pub mod KeepChain
pub mod KeepValue
pub mod LongRead
pub mod Find
pub mod Moved
pub mod LongWrite
pub mod Content
pub mod Walk
pub mod WalkWrite
pub mod Insert
pub mod Upsert
pub mod Refuse
pub mod Statuses
pub mod ReadWrite
pub mod Latest
pub mod Split
pub mod Ops
pub mod Vacuum
