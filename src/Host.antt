-- ===== src/Host.antt =====
-- pkg/host: what the driver does to the host's devices and kernel modules.
pub mod Os
pub mod Modules
pub mod Driver
pub mod Sysfs
pub mod Pci
pub mod Vfio
pub mod Sample
mod Tests
