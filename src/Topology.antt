-- ===== src/Topology.antt =====
-- The topology that the master collects: network_module/uplink_phase/topology.
pub mod Graph
pub mod Snapshot
pub mod Collect
mod Examples
