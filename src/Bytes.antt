-- ===== src/Bytes.antt =====
-- Byte sequences: slices of an address space and of vectors, big-endian and little-endian integers, and
-- the lexicographic order that `<[u8]>::cmp` gives.
pub mod Memory
pub mod BigEndian
pub mod LittleEndian
pub mod Slices
pub mod Fields
