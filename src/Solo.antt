-- ===== src/Solo.antt =====
-- One thread by itself: from the first access of `kcas` to the last no other thread touches the
-- memory. The phases of an operation, and what the whole of it does.
pub mod Row
pub mod Claim
pub mod Set
pub mod Revert
pub mod Verdict
pub mod Initialize
pub mod Kcas
pub mod Contract
pub mod Setup
pub mod Operation
pub mod Spec
pub mod Help
pub mod Waits
pub mod Blocked
pub mod Finish
pub mod Late
