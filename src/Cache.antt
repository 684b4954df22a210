-- ===== src/Cache.antt =====
-- src/cache.rs: the entries of the build cache.
pub mod Entries
pub mod Repository
pub mod Validity
pub mod Serving
pub mod Stored
pub mod Order
pub mod Key
pub mod Canonical
