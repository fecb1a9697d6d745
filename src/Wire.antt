-- ===== src/Wire.antt =====
-- The frames that carry the bulk data of a chunk between nodes, and what each peer is taken to hold
-- (src/internal/daemonapi/poolwire.go).
pub mod Frames
pub mod Trips
pub mod Held
pub mod Sent
pub mod Decode
pub mod Restored
pub mod Read
