-- ===== src/Wrapper.antt =====
-- src/wrapper.rs: a wrapper takes a free thread slot of the shared state when it is constructed, calls
-- `kcas` with the thread identifier of the slot, and gives the slot back when it is dropped. The
-- three wrappers differ in how they hold the reference to the shared state, which is the one memory
-- of a run here, so each is its thread identifier.
pub mod Slots
pub mod Arc
pub mod Ref
pub mod Unsafe
pub mod Search
pub mod Session
pub mod Count
