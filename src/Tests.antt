-- ===== src/Tests.antt =====
-- Runs on concrete inputs, of the code that the modules beside this one are about.
pub mod Relay
pub mod Verify
pub mod Wire
pub mod Services
pub mod Vertex
pub mod Billing
pub mod Server
pub mod Official
pub mod Bedrock
