-- ===== src/Traps.antt =====
-- LSD/src/traps: trap frames and causes, and the queue of user tasks.
pub mod Frame
pub mod Cause
pub mod Task
pub mod Input
pub mod Shim
pub mod Calls
mod Tests
pub mod Plic
