-- ===== src/Bytes.antt =====
-- The parts of Go's standard library that the storage engine computes with: encoding/binary,
-- bytes.Compare and hash/crc32.
pub mod Binary
pub mod Order
pub mod Crc
