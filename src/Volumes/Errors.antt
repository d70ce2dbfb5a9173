-- ===== src/Volumes/Errors.antt =====
-- internal/volume/volume.go and internal/volume/util/error.go: the errors of volumes that callers tell
-- apart from the others.
pub mod Refused
use edgecenter_ccm.Prelude.{
  Str, String, Bool, true, false, codes, Err, sentinel, failure, api, wrap, quote, dangling,
  volume_in_use,
}

-- NewDeletedVolumeInUseError and its Error
abbrev pub new_deleted_volume_in_use_error : String → Err
new_deleted_volume_in_use_error message = volume_in_use message

-- IsDeletedVolumeInUse: the type of the error itself, not of one that it wraps
unfoldable pub is_deleted_volume_in_use : Err → Bool
is_deleted_volume_in_use (volume_in_use text) = true
is_deleted_volume_in_use (sentinel k) = false
is_deleted_volume_in_use (failure text) = false
is_deleted_volume_in_use (api text) = false
is_deleted_volume_in_use (wrap text e) = false
is_deleted_volume_in_use (quote text e) = false
is_deleted_volume_in_use (dangling text node path) = false

-- NewDanglingError
abbrev pub new_dangling_error : String → Str → Str → Err
new_dangling_error text node device_path = dangling text node device_path
