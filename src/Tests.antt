-- ===== src/Tests.antt =====
-- Concrete runs of the modelled code, with the theorems applied to them.
mod Access
mod Caching
mod Cluster
mod Health
mod Protocol
mod Queue
mod Releases
mod Recovery
mod Routing
mod Server
