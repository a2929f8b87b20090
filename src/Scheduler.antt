-- ===== src/Scheduler.antt =====
-- The schedule computation: network_module/scheduler.
pub mod Lcm
pub mod Element
pub mod Slots
pub mod Conflicts
pub mod Allocate
pub mod Router
pub mod Reschedule
mod Examples
