-- ===== src/Releases.antt =====
-- src/releases.rs: the life of a release, its tables, and the controller that moves traffic.
pub mod Status
pub mod Record
pub mod Tables
pub mod Controller
pub mod Orchestrate
pub mod Reconcile
pub mod History
pub mod Reading
pub mod Evolution
pub mod Lifecycle
pub mod Guarantees
pub mod Transitions
pub mod Races
pub mod Gate
pub mod Routing
pub mod Recovering
pub mod Recovery
