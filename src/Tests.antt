-- ===== src/Tests.antt =====
-- The theorems at concrete inputs.
pub mod Rings
pub mod Sessions
pub mod Slots
pub mod Workers
pub mod Parts
pub mod Clients
pub mod Kernel
pub mod Lobby
pub mod Interface
