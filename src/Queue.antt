-- ===== src/Queue.antt =====
-- src/queue.rs: the build queue. Queue/Priority and Queue/Status are its enums, Queue/Tables its
-- records, rows and statements, Queue/Redis the commands of Redis and the reading of a reply;
-- Queue/Base is its state and what the operations share; Queue/Enqueue, Queue/Claim and
-- Queue/Finish are the operations. Queue/History says how jobs may change, and Queue/Steps,
-- Queue/Growth, Queue/Evolution and Queue/Lifecycle follow the operations; Queue/Same,
-- Queue/Claiming and Queue/Leases are about single operations.
pub mod Priority
pub mod Status
pub mod Tables
pub mod Redis
pub mod Base
pub mod Enqueue
pub mod Claim
pub mod Finish
pub mod History
pub mod Steps
pub mod Growth
pub mod Evolution
pub mod Lifecycle
pub mod Claiming
pub mod Same
pub mod Leases
