-- ===== src/PodManager.antt =====
-- pkg/podmanager: the prepared devices by pod and claim, and their checkpoint.
pub mod Store
pub mod Keys
pub mod Restart
mod Tests
