-- ===== src/Volumes/Devices/Cold.antt =====
-- getDevicePathFromInstanceMetadata of internal/edgecenter/volumes.go, where nothing has filled the
-- cache of the metadata yet.
use edgecenter_ccm.Prelude.{
  Str, none, [], ok, ◌≡◌, refl, codes, arith, split, trim_space, str_eq, nat_eq,
}
use edgecenter_ccm.Cloud.Host.{Host}
use edgecenter_ccm.Metadata.Search.Unsupported.{Unsupported, get-Unsupported}
use edgecenter_ccm.Volumes.Devices.{
  get_device_path_from_instance_metadata, device_path_from_metadata,
}
use edgecenter_ccm.Prelude.{All}

module _ {State : Type 0} (host : Host State) where
  version-Unsupported : All (Unsupported host) (split b',' (codes "2016-06-30"))
  unfolding split codes trim_space nat_eq
  version-Unsupported = ((λ e. ground arith, λ e. ground arith), tt)

  -- With an empty cache the search for the device of a volume in the metadata returns the
  -- empty path and leaves the state as it is, whatever the metadata service would answer.
  pub get_device_path_from_instance_metadata-empty :
      (id : Str) (s : State)
      → get_device_path_from_instance_metadata host id (none, s) ≡ (ok [], (none, s))
  unfolding get_device_path_from_instance_metadata device_path_from_metadata
  get_device_path_from_instance_metadata-empty id s =
      let (e, h) = get-Unsupported host (codes "2016-06-30") s version-Unsupported in rw h refl
