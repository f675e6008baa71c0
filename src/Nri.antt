-- ===== src/Nri.antt =====
-- pkg/nri: the pod sandbox hooks.
pub mod Updates
pub mod Groups
pub mod Status
pub mod Sandbox
pub mod Plugin
pub mod Hooks
pub mod Stored
pub mod Runner
pub mod Lifecycle
mod Tests
