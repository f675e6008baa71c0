-- ===== src/DeviceState.antt =====
-- pkg/devicestate: the discovered devices, what policies add to them, and the preparation of the
-- devices of a claim.
pub mod State
pub mod Discovery
pub mod Construct
pub mod Advertise
pub mod Services
pub mod DeviceInfo
pub mod Edits
pub mod Prepare
