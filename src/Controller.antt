-- ===== src/Controller.antt =====
-- pkg/controller: which devices the SriovResourcePolicy objects advertise, and with which attributes.
pub mod Objects
pub mod Filter
pub mod Policy
pub mod Watch
