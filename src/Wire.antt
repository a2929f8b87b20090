-- ===== src/Wire.antt =====
-- What the parts of the network send one another, as bytes in packets.
pub mod Fields
pub mod Schedule
