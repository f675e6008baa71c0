-- ===== src/Types.antt =====
-- pkg/types: the status entries of a claim, the retried status update, and the prepared devices.
pub mod ClaimStatus
pub mod NetConf
pub mod Prepared
pub mod Samples
pub mod Retry
pub mod Config
pub mod Checkpoint
