-- ===== src/Storage.antt =====
-- The package storage: the store of the volumes' metadata and files.
pub mod Json
pub mod Memory
pub mod Stored
pub mod Abstract
pub mod Refines
pub mod Disk
pub mod Interface
pub mod Implements
