-- ===== src/Safety.antt =====
-- No fatal error in any interleaving: what the threads keep true of the memory together, and what
-- each can rely on while the others take steps.
pub mod Order
pub mod World
pub mod Later
pub mod Writes
pub mod StageWrites
pub mod Safe
pub mod Work
pub mod Phases
pub mod Check
pub mod Setting
pub mod Change
pub mod OwnChange
pub mod Handlers
pub mod Helping
pub mod Claiming
pub mod Operation
pub mod Steps
pub mod Run
pub mod Always
