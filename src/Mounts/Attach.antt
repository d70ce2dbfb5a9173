-- ===== src/Mounts/Attach.antt =====
-- internal/util/mount/mount.go: the wait for an attached volume, mount points, files and directories.
pub mod Waiting
pub mod Found
use edgecenter_ccm.Prelude.{
  ℕ, Str, Option, none, some, Bool, true, false, not, ◌&&◌, List, [], ◌∷◌, ◌++◌, ◌⊎◌, inl, inr,
  codes, ◌==◌, leb, length, find, abort, str_eq, if◌then◌else◌, wait_timeout, error_is, Err,
  failure, wrap, Exec, Outcome, ok, err, panic, pure, fail, lift, attempt, wrapping, world, assign,
  ◌>>=◌, ◌>>◌,
}
use edgecenter_ccm.Cloud.Client.{Backoff}
use edgecenter_ccm.Cloud.Host.{Host}
use edgecenter_ccm.Volumes.Devices.{by_id, serial_length, is_candidate, path_or_empty, call}

abbrev scsi_path : Str
scsi_path = codes "/sys/class/scsi_host/"

-- What a timer or a ticker sends.
pub data Event : Type 0 where
  tick timer : Event

-- Where the loop of ScanForAttach stands: it waits for an event, or it has returned.
pub data Scan : Type 0 where
  waiting attached timed_out : Scan

module _ {State : Type 0} (host : Host State) where
  scan_hosts : List Str → Exec State (Unit {0})
  scan_hosts [] = pure tt
  scan_hosts (name ∷ names) = do
    wrapping "Unable to scan %s: "
        (host.write_file (scsi_path ++ (name ++ codes "/scan")) (codes "- - -"))
    scan_hosts names

  abbrev scan_listed : List Str × Option Err → Exec State (Unit {0})
  scan_listed (names, none) = scan_hosts names
  scan_listed (names, some e) = pure tt

  list_hosts : Exec State (List Str × Option Err)
  list_hosts s = let (r, t) = host.read_dir scsi_path s in (ok r, t)

  -- probeVolume
  unfoldable pub probe_volume : Exec State (Unit {0})
  unfolding scan_hosts list_hosts
  probe_volume = do
    listed ← list_hosts
    scan_listed listed
    host.run (codes "udevadm" ∷ codes "trigger" ∷ [])
    pure tt

  abbrev pub after_probe : Err ⊎ Bool → Scan
  after_probe (inr true) = attached
  after_probe (inr false) = waiting
  after_probe (inl e) = waiting

  -- One round of the loop: an error of the probe is only logged.
  unfoldable pub scan_step : Str → Event → Exec State Scan
  scan_step path timer = pure timed_out
  scan_step path tick = do
    attempt probe_volume
    exists ← attempt (host.path_exists path)
    pure (after_probe exists)

  abbrev pub go_on : Scan → Exec State Scan → Exec State Scan
  go_on waiting rest = rest
  go_on attached rest = pure attached
  go_on timed_out rest = pure timed_out

  -- ScanForAttach, on the events in the order in which they are received; it returns nil where it
  -- ends attached, and an error where it ends timed out.
  unfoldable pub scan_for_attach : Str → List Event → Exec State Scan
  unfolding scan_step
  scan_for_attach path [] = pure waiting
  scan_for_attach path (e ∷ events) = do
    now ← scan_step path e
    go_on now (scan_for_attach path events)

  made_directory : Bool × Err → Err ⊎ Unit {0} → Exec State (Bool × Option Err)
  made_directory (not_mount, e) (inl d) = pure (not_mount, some d)
  made_directory (not_mount, e) (inr _) = pure (true, none)

  checked_mount : Str → Bool × Option Err → Exec State (Bool × Option Err)
  unfolding made_directory
  checked_mount path (not_mount, none) = pure (not_mount, none)
  checked_mount path (not_mount, some e) =
      let create : Exec State (Bool × Option Err) = (do
        made ← attempt (host.make_dirs path)
        made_directory (not_mount, e) made) in
      if host.is_not_exist e then create else pure (not_mount, some e)

  -- IsLikelyNotMountPointAttach: both values that it returns
  unfoldable pub is_likely_not_mount_point_attach : Str → Exec State (Bool × Option Err)
  unfolding checked_mount
  is_likely_not_mount_point_attach path = do
    got ← host.is_likely_not_mount_point path
    checked_mount path got

  -- GetMountFs
  unfoldable pub get_mount_fs : Str → Exec State Str
  get_mount_fs path = host.run (
      codes "findmnt"
      ∷ codes "-o"
      ∷ codes "source"
      ∷ codes "--first-only"
      ∷ codes "--noheadings"
      ∷ codes "--target"
      ∷ path
      ∷ [])

  -- `if err != nil { if !os.IsExist(err) { return err } }`
  unless_exists : Err ⊎ Unit {0} → Exec State (Unit {0})
  unless_exists (inr _) = pure tt
  unless_exists (inl e) = if not (host.is_exist e) then fail e else pure tt

  unfoldable pub make_dir : Str → Exec State (Unit {0})
  unfolding unless_exists
  make_dir path = do made ← attempt (host.make_dirs path); unless_exists made

  unfoldable pub make_file : Str → Exec State (Unit {0})
  unfolding unless_exists
  make_file path = do made ← attempt (host.create_file path); unless_exists made

  -- getDevicePathBySerialID of mount.go, the same search as in volumes.go
  unfoldable pub get_device_path_by_serial : Str → Exec State Str
  get_device_path_by_serial id =
      let search : Exec State Str = (do
        files ← call host (host.read_dir by_id)
        pure (path_or_empty (find (is_candidate id) files.0))) in
      if leb serial_length (length id) then search else abort

  -- The check of GetDevicePath: the closure sets `devicePath`.
  unfoldable pub after_serial : Str → Exec (Str × State) Bool
  after_serial (c ∷ path) = pure true
  after_serial [] = do attempt (world probe_volume); pure false

  unfoldable pub probe_check : Str → Exec (Str × State) Bool
  unfolding after_serial get_device_path_by_serial
  probe_check id = do path ← world (get_device_path_by_serial id); assign path; after_serial path

unfoldable pub probed_path : Outcome (Unit {0}) → Str → Outcome Str
probed_path panic path = panic
probed_path (ok _) [] = err (failure "Device path was empty for volumeID: %q")
probed_path (ok _) (c ∷ path) = ok (c ∷ path)
probed_path (err e) path =
    if error_is e wait_timeout
    then err (failure "Failed to find device for the volumeID: %q within the alloted time")
    else if path == []
    then err (failure "Device path was empty for volumeID: %q")
    else ok path

-- GetDevicePath of mount.go
unfoldable pub get_mounted_device_path :
    {State : Type 0} → Host State → Backoff State → Str → Exec State Str
unfolding probe_check probed_path
get_mounted_device_path host backoff id s =
    let (r, (path, t)) = backoff Str 15 (probe_check host id) ([], s) in (probed_path r path, t)
