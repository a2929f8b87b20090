-- ===== src/Stream.antt =====
-- Streams as the master keeps them: network_module/stream.
pub mod Params
pub mod Collection
pub mod Changes
pub mod Redundancy
pub mod Wakeup
mod Examples
