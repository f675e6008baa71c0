-- ===== src/Api.antt =====
-- pkg/api: the configuration of a virtual function, and how a claim's opaque configs become one.
pub mod VfConfig
pub mod Opaque
