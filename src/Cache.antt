-- ===== src/Cache.antt =====
-- src/cache.rs: the bounded on-disk track cache.
pub mod Disk
pub mod Store
pub mod Manager
pub mod Invariant
pub mod Eviction
pub mod Steps
pub mod Methods
pub mod Loading
pub mod Naming
pub mod NamingLaws
pub mod FreeNames
