-- ===== src/Node.antt =====
-- node/nodeserver.go and utils/mount.go.
pub mod Calls
pub mod Asks
pub mod Capability
pub mod Devices
pub mod Server
pub mod Publish
pub mod Stage
pub mod Unstage
pub mod Unpublish
pub mod Guarded
pub mod Handlers
pub mod Counted
pub mod Bounded
pub mod Returns
pub mod Utils
pub mod Requests
pub mod Interleaving
pub mod Exclusion
pub mod Finish
pub mod World
pub mod Info
pub mod Made
pub mod Sequential
pub mod Busy
pub mod Mounts
pub mod Retries
pub mod MayMount
pub mod Staged
pub mod Unstaged
pub mod Cycle
pub mod Contract
pub mod Adds
pub mod Stacked
pub mod Obeys
pub mod Fulfils
pub mod Outcomes
