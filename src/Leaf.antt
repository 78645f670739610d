-- ===== src/Leaf.antt =====
-- The loops over the cells of one leaf page: reading in btree.go (`Find`, `FindLatest`,
-- `isVersionVisible`), writing in btree.go (`upsertCell`), cleaning in vacuum.go (`vacuumLeaf`), and
-- redo and undo in recovery.go (`redoUpsertOnPage`).
pub mod Read
pub mod Write
pub mod Clean
pub mod Redo
pub mod Versions
pub mod Latest
pub mod Inline
pub mod Vacuum
pub mod VacuumPage
pub mod Put
pub mod Scan
pub mod WriteLeaf
