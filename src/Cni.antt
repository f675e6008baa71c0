-- ===== src/Cni.antt =====
-- pkg/cni: the CNI runtime and the execution of plugins.
pub mod Result
pub mod Runtime
pub mod Exec
mod Tests
