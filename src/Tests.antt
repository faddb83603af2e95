-- ===== src/Tests.antt =====
-- The theorems of the library at concrete inputs.
pub mod Scheduling
pub mod Storage
pub mod Waking
pub mod Network
pub mod Memory
pub mod Files
pub mod Writes
pub mod Assembling
pub mod Editing
