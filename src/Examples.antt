-- ===== src/Examples.antt =====
-- The theorems at concrete inputs, and the memory, buffer and runtime that these use.
pub mod Setting
mod Integers
mod Blocks
mod Positions
mod Bigstrings
mod Channels
mod Processes
mod Creation
mod Stubs
