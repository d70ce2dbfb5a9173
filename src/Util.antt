-- ===== src/Util.antt =====
-- Helpers of the repository that do not call the cloud.
pub mod IpNets
pub mod SourceRanges
pub mod Lists
pub mod Http
pub mod Patch
