-- ===== src/Relay.antt =====
-- cmd/relay-core: the handler of a client request, from its body to the settlement.
pub mod Upstream
pub mod Tokens
pub mod Client
pub mod Base
pub mod Family
pub mod Billing
pub mod World
pub mod Dispatch
pub mod Bedrock
pub mod Route
pub mod Admit
pub mod Serve
pub mod Invariants
pub mod Outside
pub mod Protocol
pub mod Replied
pub mod Frame
pub mod Confinement
pub mod Verbatim
pub mod Answers
pub mod Hosts
pub mod ImageBilling
pub mod Officiality
pub mod Calls
pub mod Dialled
pub mod Faithful
