-- ===== src/Nodes.antt =====
-- src/node_registry.rs: the nodes that releases run on, their leases on life (heartbeats), and
-- the record of their changes.
pub mod Record
pub mod Tables
pub mod Registry
pub mod History
pub mod Steps
pub mod Evolution
pub mod Errors
pub mod Fencing
