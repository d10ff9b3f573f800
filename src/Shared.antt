-- ===== src/Shared.antt =====
-- Several threads on one memory: what each access of a thread may do, whatever the others have
-- written before, and what follows for every interleaving of their accesses.
pub mod Discipline
pub mod Phases
pub mod Setting
pub mod Claiming
pub mod Whole
pub mod Schedule
pub mod Forward
pub mod Ownership
pub mod Bounded
pub mod Loops
pub mod Ends
pub mod WaitFree
