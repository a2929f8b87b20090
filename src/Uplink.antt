-- ===== src/Uplink.antt =====
-- network_module/uplink_phase: the messages by which nodes forward the topologies and the stream
-- management elements that they have collected.
pub mod Allocation
mod Examples
