-- ===== src/Scheduler.antt =====
-- src/scheduler.rs: the placement of releases on nodes.
pub mod Placement
pub mod Score
pub mod Service
pub mod Cluster
pub mod Evolution
pub mod Errors
pub mod Candidates
pub mod Choice
pub mod Selection
pub mod Capacity
pub mod Soundness
pub mod Accounts
pub mod Usage
pub mod Commitment
pub mod Feasible
pub mod Progress
pub mod Fencing
