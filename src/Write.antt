-- ===== src/Write.antt =====
-- The writers of base/bin_prot/lib/write_stubs.c.
pub mod Emit
pub mod Integers
pub mod Blocks
pub mod Fixed
