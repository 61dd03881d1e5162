-- ===== src/Read.antt =====
-- The readers of base/bin_prot/lib/read_stubs.c.
pub mod Pointer
pub mod Integers
pub mod Blocks
pub mod Fixed
