-- ===== src/Types/ClaimStatus.antt =====
-- pkg/types/claimstatus.go: the entries of ResourceClaim.status.devices.
pub mod Key
pub mod Merge
pub mod Unique
mod Tests
