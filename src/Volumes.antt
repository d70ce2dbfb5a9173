-- ===== src/Volumes.antt =====
-- Block storage: internal/edgecenter/volumes.go, internal/volume.
pub mod Size
pub mod Api
pub mod Errors
pub mod Disks
pub mod Metrics
pub mod Devices
