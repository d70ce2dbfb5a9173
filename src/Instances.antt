-- ===== src/Instances.antt =====
-- internal/edgecenter/instances.go and the parts of edgecenter.go that read instances.
pub mod ProviderId
pub mod Lookup
pub mod Addresses
pub mod Methods
