-- ===== src/Multi.antt =====
-- src/multi/mod.rs: one server with a fixed number of slots, which the clients claim by themselves.
pub mod Handle
pub mod Slots
pub mod Calls
pub mod Worker
pub mod Claim
pub mod Client
pub mod Delivery
pub mod Queue
pub mod Moves
pub mod SlotSteps
pub mod Invariant
pub mod Turns
pub mod Sends
pub mod Start
pub mod Runs
pub mod Claims
pub mod Reclaim
pub mod Sweep
