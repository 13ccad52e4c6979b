-- ===== src/Node/Outcomes.antt =====
-- What the handlers have done when they return.
pub mod Stage
pub mod Publish
pub mod Unstage
pub mod Checks
pub mod Succeeds
pub mod Unstages
