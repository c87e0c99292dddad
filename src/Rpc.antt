-- ===== src/Rpc.antt =====
-- src/rpc.rs: the frames between a supervisor, its worker, the nodes and the hub, one JSON text a
-- line.
pub mod Reader
pub mod Lines
pub mod Delivery
pub mod Codec
pub mod RoundTrip
mod Examples
