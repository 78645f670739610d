-- ===== src/Tests.antt =====
-- Runs at concrete inputs, and the theorems at inputs that meet their hypotheses.
mod Cells
mod Pages
mod Txns
mod Leaves
mod Logs
mod Buffers
mod Trees
mod Writes
mod FreePages
mod Recoveries
mod Sessions
