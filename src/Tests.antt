-- ===== src/Tests.antt =====
-- Concrete inputs: the tests of the program and of the types that they use.
pub mod Packing
pub mod Operations
pub mod Wrappers
pub mod Runs
pub mod Helping
pub mod Interleavings
pub mod Always
pub mod Late
pub mod Blocked
pub mod WaitFree
