-- ===== src/Mounts/Unsupported.antt =====
-- internal/util/blockdevice/blockdevice_unsupported.go: the block devices of systems that have none.
-- What the functions return beside the error is kept.
use edgecenter_ccm.Prelude.{Str, Bool, false, ℤ, negsuc, Option, some, Err, failure}

unfoldable pub is_block_device : Str → Bool × Option Err
is_block_device path = (false, some (failure "IsBlockDevice is not implemented for this OS"))

unfoldable pub get_block_device_size : Str → ℤ × Option Err
get_block_device_size path =
    (negsuc 0, some (failure "GetBlockDeviceSize is not implemented for this OS"))

unfoldable pub rescan_block_device_geometry : Str → Str → ℤ → Option Err
rescan_block_device_geometry device_path mount_path new_size =
    some (failure "RescanBlockDeviceGeometry is not implemented for this OS")
