-- ===== src/Metadata/Sources.antt =====
-- internal/util/metadata/metadata.go: the config drive and the metadata service.
use edgecenter_ccm.Prelude.{
  Str, Bool, ◌&&◌, List, [], ◌∷◌, ◌++◌, ◌⊎◌, inl, inr, codes, ◌==◌, str_eq, if◌then◌else◌,
  trim_space, Err, failure, sentinel, bad_metadata, Exec, Outcome, ok, err, panic, pure, lift, fail,
  attempt, quoting, deferring, ◌>>=◌, ◌>>◌,
}
use edgecenter_ccm.Cloud.Host.{Host, Metadata, DeviceMetadata}

abbrev pub default_metadata_version : Str
default_metadata_version = codes "latest"

-- getMetadataURL and getConfigDrivePath
unfoldable pub get_metadata_url : Str → Str
get_metadata_url version =
    codes "http://169.254.169.254/openstack/" ++ (version ++ codes "/meta_data.json")

unfoldable pub get_config_drive_path : Str → Str
get_config_drive_path version = codes "openstack/" ++ (version ++ codes "/meta_data.json")

-- Metadata with no UUID is refused.
with_uuid : Outcome Metadata → Outcome Metadata
with_uuid (ok md) = if md.uuid == [] then err (sentinel bad_metadata) else ok md
with_uuid (err e) = err e
with_uuid panic = panic

unfoldable pub parse_metadata : (Str → Outcome Metadata) → Str → Outcome Metadata
unfolding with_uuid
parse_metadata decode text = with_uuid (decode text)

module _ {State : Type 0} (host : Host State) where
  config_drive_device : Exec State Str
  config_drive_device = do
    missing ← host.is_missing (codes "/dev/disk/by-label/config-2")
    let search : Exec State Str = (do
      out ← quoting "unable to run blkid: " (
          host.run (
            codes "blkid"
            ∷ codes "-l"
            ∷ codes "-t"
            ∷ codes "LABEL=config-2"
            ∷ codes "-o"
            ∷ codes "device"
            ∷ []))
      pure (trim_space out))
    if missing then search else pure (codes "/dev/disk/by-label/config-2")

  -- iso9660 is tried first, and vfat if that fails.
  mount_again : Str → Str → Err ⊎ Unit {0} → Exec State (Unit {0})
  mount_again dev dir (inr _) = pure tt
  mount_again dev dir (inl e) = host.mount dev dir (codes "vfat")

  mount_drive : Str → Str → Exec State (Unit {0})
  unfolding mount_again
  mount_drive dev dir = do
    tried ← attempt (host.mount dev dir (codes "iso9660"))
    quoting "error mounting configdrive %s: " (mount_again dev dir tried)

  read_drive : Str → Str → Exec State Metadata
  read_drive dir version = do
    text ←
        quoting "error reading %s on config drive: "
          (host.read_file (host.join dir (get_config_drive_path version)))
    lift (parse_metadata host.decode_metadata text)

  -- `defer os.Remove(mntdir)` and `defer mounter.Unmount(mntdir)`
  unfoldable pub get_from_config_drive : Str → Exec State Metadata
  unfolding config_drive_device mount_drive read_drive
  get_from_config_drive version = do
    dev ← config_drive_device
    deferring (host.remove host.temp_dir) (do
      mount_drive dev host.temp_dir
      deferring (host.unmount host.temp_dir) (read_drive host.temp_dir version))

  unfoldable pub get_from_metadata_service : Str → Exec State Metadata
  get_from_metadata_service version = do
    resp ← quoting "error fetching %s: " (host.http_get (get_metadata_url version))
    if resp.0
        then lift (parse_metadata host.decode_metadata resp.1)
        else fail (failure "unexpected status code when reading metadata from %s: %s")

  abbrev is_disk_of : Str → DeviceMetadata → Bool
  is_disk_of id d = d.kind == codes "disk" && d.serial == id

  path_of : Str → List Str → Exec State Str → Exec State Str
  path_of id (p ∷ []) next =
      if p == [] then fail (failure "disk path for volumeID %q is empty") else pure p
  path_of id paths next = next

  -- The loop over the devices: a device with other than one path is passed over.
  search_devices : Str → List DeviceMetadata → Exec State Str
  unfolding path_of
  search_devices id [] = fail (failure "could not retrieve device metadata for volumeID: %q")
  search_devices id (d ∷ devices) =
      let next = search_devices id devices in
      let found : Exec State Str = (do
        paths ←
            quoting "could not retrieve disk path for volumeID: %q. Error filepath.Glob(%q): "
              (host.glob (codes "/dev/disk/by-path/*-" ++ (d.bus ++ (b'-' ∷ d.address))))
        path_of id paths next) in
      if is_disk_of id d then found else next

  -- GetDevicePath of metadata.go
  unfoldable pub get_device_path : Str → Exec State Str
  unfolding search_devices
  get_device_path id = do
    md ←
        quoting "could not retrieve instance metadata: "
          (get_from_metadata_service default_metadata_version)
    search_devices id md.devices
