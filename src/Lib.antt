-- ===== src/Lib.antt =====
-- ryu-db, a key-value store on a B+ tree with multi-version concurrency control and a write-ahead log.
-- This library models the storage engine (internal/storage), the coordinator over it (internal/engine)
-- and the sessions of the server (server.go).
--
-- A page (internal/storage/page.go) is 4096 bytes with a header, a directory of slots and cells. A leaf
-- of the tree (internal/storage/btree.go) holds key-value cells (internal/storage/cell.go), one for each
-- version of a user key: its key is the user key, a zero byte and the id of the writing transaction
-- (internal/storage/txn.go). Reading picks the newest version that the reader may see, writing checks for
-- write-write conflicts and puts a version in its place, and the vacuum (internal/storage/vacuum.go)
-- drops the versions that nobody reads any more. Writes are logged
-- (internal/storage/wal.go), and recovery (internal/storage/recovery.go) writes the logged cells again.
--
-- The files:
--   Base: natural-number tests, lists, byte ranges and outcomes that the components share. Base.Ranges
--     has Go's slices and `copy` on byte lists, where a bad range is `none` and a panic of the caller.
--     Base.Table has Go's maps from integers as association lists. Base.State has operations on a
--     state, and Ends: an operation ends well, with a postcondition.
--   Bytes: little and big endian numbers, CRC-32 (IEEE) and the byte order of `bytes.Compare`.
--   Cell: internal/storage/cell.go. KeyCell and KVCell, with Serialize, Deserialize and the flags.
--   Page: internal/storage/page.go. Page.insert and Page.get are Page.Insert and Page.Get, with their
--     arithmetic of uint16. Page.Shape says what a slotted page is; Page.Rebuild has the loops over all
--     slots and `Init` with the insertion of all cells that btree.go, vacuum.go and recovery.go share.
--   Txn: internal/storage/txn.go. The mutex makes a method one step: a function from state to state.
--     Txn.Key has BuildMVCCKey and ExtractMVCCKey.
--   Leaf: what the tree does on the leaf that findLeafPage returns. Leaf.Read has isVersionVisible,
--     FindLatest and Find, Leaf.Write has upsertCell, Leaf.Clean has vacuumLeaf and Leaf.Redo has
--     redoUpsertOnPage. Leaf.Versions describes a leaf as a list of versions, on which Leaf.Latest,
--     Leaf.Vacuum, Leaf.Put and Leaf.Scan say what the operations do.
--   Wal: internal/storage/wal.go. The log is the content of its file and the next LSN; the outcome of a
--     write and of its fsync is an argument of Wal.append.
--     Wal.Checkpoint has the table that WriteCheckpoint writes and Recover reads.
--   Pager: internal/storage/pager.go. The page file is its content, and the outcome of a write an
--     argument.
--   Buffer: internal/storage/buffer_manager.go. Frames over the page file and the log. Buffer.World is
--     what the code leaves to its surroundings: the order in which a map is ranged over, and the
--     outcomes of the writes to come. Buffer.View.view is the abstract state, a map from page ids to
--     pages without their LSN: the page of the frame, or of the file. Buffer.View.IsPool is the
--     invariant, Buffer.Evict.Keeps says that an operation keeps it and the view. Buffer.Pins.IsUsing
--     adds which pages are in use, as a list with each page as often as it is pinned, and Buffer.Use,
--     Buffer.Hold and Buffer.Extend say what fetching a page and adding one to the file do to it.
--   Tree: internal/storage/btree.go and vacuum.go over the buffer manager. A page that is fetched is a
--     value, and `store_page` writes it back to its frame where the code changes it through its pointer.
--     Tree.FreeList, Tree.Descend, Tree.Split, Tree.Overflow, Tree.Ops, Tree.Find and Tree.Vacuum have
--     the operations; the path to a leaf is kept with its last page first. Tree.Walk, Tree.Latest and
--     Tree.ReadChain say what the walks come to that read, Tree.Upsert and Tree.ReadWrite what a write
--     comes to on a leaf that has room, Tree.Refuse what a write comes to that conflicts with another
--     one, Tree.LongWrite what the write of a value in overflow pages comes to, and Tree.Statuses that no
--     write changes the status of a transaction. Tree.FreeStack.FreeStack is the abstract view of the free
--     pages, a list of page ids, for which Tree.Allocate and Tree.FreeStack describe allocatePage and
--     deallocatePage; Tree.ReadChain.IsChain is that of the overflow pages of a value, and Tree.KeepValue
--     describes createOverflowChain. Tree.CreateChain, Tree.Chain and Tree.KeepChain have its loop.
--   Recovery: internal/storage/recovery.go. The passes of Recover over the records of the log;
--     Recovery.Open has NewBTree, Checkpoint and Close of btree.go; Recovery.Dirty describes the table of
--     the dirty pages that Checkpoint logs.
--   Engine: internal/engine/db.go. DB over an interface of storage.Index, a record of operations;
--     IsIndex states what the sessions rely on, and Engine.TreeIndex has the tree behind that interface,
--     where a run-time panic, which ends the process, is an error of its own.
--   Session: server.go. The command loop of a connection is a function of its lines, and each line is
--     one step on the state of the client, the index and the transaction manager. Session.Text has what
--     the loop uses of Go's strings, on ASCII text.
--   Tests: runs of the operations at concrete inputs.
--
-- Integers are natural numbers with the wrap-around of their width written out. Errors and panics are
-- values of `Result`. A loop over a list, the slots of a page or the bytes of a value recurs on it. The
-- other loops take fuel, and end with the error `out_of_fuel` without it: the walk to a leaf takes one
-- for each level of the tree, a walk along a chain one for each page, the scan of the log one for each
-- record, and Rollback and the undo pass one for each record that they go back. A chain of pages or of
-- records that runs in a circle is walked for ever by the code, so these have no bound of their own.
--
-- On one leaf, reading an overflow chain is an argument of the reading operations and an operation that
-- frees chains returns their metadata in order; Tree.Ops and Tree.Vacuum read and free them.
--
-- The descriptions of leaves and versions are about user keys without a zero byte (Leaf.Versions); the
-- engine takes any, and where a user key has one the order of the versions is another.
--
-- A slice is as long as its length: where a cell, a record or the metadata of a chain is malformed, the
-- model panics on a bound between the length and the capacity of a slice, where Go reads the bytes
-- behind. A page that upsertCell writes is stored in the frame of the id in its header, where Go writes
-- through the pointer that it fetched: the two are the same where the page holds its own id.
--
-- Not modelled: the latches and the goroutines with their timers, a mutex but for making a method one
-- step, the file system but for the contents of the page file, the log and the checkpoint file, and the
-- outcomes of the writes to the first two, the terminal, and the network but for the lines of a
-- connection. Those are calls of the operating system and of Go's library.
pub mod Base
pub mod Bytes
pub mod Cell
pub mod Page
pub mod Txn
pub mod Leaf
pub mod Wal
pub mod Pager
pub mod Buffer
pub mod Tree
pub mod Recovery
pub mod Engine
pub mod Session
pub mod Tests
