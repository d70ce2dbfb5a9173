-- ===== src/Mounts.antt =====
-- The block devices and mounts of the host: internal/util/mount/mount.go and
-- internal/util/blockdevice/blockdevice_linux.go.
pub mod Blocks
pub mod Attach
pub mod Stats
pub mod Provider
pub mod Unsupported
