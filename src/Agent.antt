-- ===== src/Agent.antt =====
-- src/agent_protocol.rs: what the control plane and the agents on the nodes say to each other.
pub mod Commands
pub mod Envelope
pub mod Validator
pub mod Tokens
pub mod Safety
pub mod Acceptance
pub mod Replay
pub mod Signing
pub mod Responses
pub mod Server
pub mod Execution
pub mod Revocation
