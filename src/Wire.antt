-- ===== src/Wire.antt =====
-- pkg/relaycontrol/wire.go: the messages between enclave and control plane, and what is read out of
-- request and response bodies.
pub mod Messages
pub mod Peek
pub mod Usage
pub mod Images
pub mod Mapping
pub mod Region
pub mod StreamUsage
