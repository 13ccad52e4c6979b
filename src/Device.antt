-- ===== src/Device.antt =====
-- mount-manager/device-utils.go: the checks on the path of a disk, on Linux.
pub mod Serial
pub mod Exact
pub mod Fields
pub mod Calls
pub mod Verify
pub mod Reads
pub mod Repair
pub mod Confirmed
pub mod Succeeds
