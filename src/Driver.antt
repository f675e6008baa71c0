-- ===== src/Driver.antt =====
-- pkg/driver: the hooks that the kubelet calls.
pub mod Hook
pub mod Requests
pub mod Again
pub mod Batch
pub mod Stack
mod Tests
pub mod Publish
pub mod Health
pub mod Start
