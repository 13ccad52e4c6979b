-- ===== src/Tests.antt =====
-- Each theorem on a concrete input that meets its conditions, and the data for that.
pub mod Data
mod Requests
mod Retries
mod Store
mod Clients
mod Contract
mod Outcomes
mod Services
mod Disk
mod Files
mod Succeeds
mod Windows
mod Device
mod Lifecycle
mod Refines
