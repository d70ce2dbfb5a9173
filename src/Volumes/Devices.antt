-- ===== src/Volumes/Devices.antt =====
-- internal/edgecenter/volumes.go: the device path of an attached volume. The same search by serial
-- ID stands in internal/util/mount/mount.go.
pub mod Sources
pub mod Found
pub mod Cold
use edgecenter_ccm.Prelude.{
  ℕ, Str, Option, none, some, Bool, true, false, not, ◌&&◌, ◌||◌, List, [], ◌∷◌, ◌++◌, ◌⊎◌, inl,
  inr, codes, find, filter, any, take, leb, length, ◌==◌, nat_eq, str_eq, if◌then◌else◌,
  wait_timeout, error_is, Err, failure, Exec, Outcome, ok, err, panic, pure, lift, fail, abort,
  attempt, world, assign, ◌>>=◌, ◌>>◌,
}
use edgecenter_ccm.Cloud.Client.{Backoff}
use edgecenter_ccm.Metadata.Search.{Cached, get}
use edgecenter_ccm.Cloud.Host.{Host, Metadata, DeviceMetadata}

abbrev pub by_id : Str
by_id = codes "/dev/disk/by-id/"

-- `volumeID[:20]` of a shorter text is a panic.
abbrev pub serial_length : ℕ
serial_length = 20

-- The names that a device of the volume may have.
unfoldable pub candidate_device_nodes : Str → List Str
candidate_device_nodes id =
    (codes "virtio-" ++ take serial_length id)
    ∷ (codes "virtio-" ++ id)
    ∷ (codes "scsi-0QEMU_QEMU_HARDDISK_" ++ take serial_length id)
    ∷ (codes "scsi-0QEMU_QEMU_HARDDISK_" ++ id)
    ∷ (codes "wwn-0x" ++ filter (λ c. not (c == b'-')) id)
    ∷ []

abbrev pub is_candidate : Str → Str → Bool
is_candidate id file = any (λ c. c == file) (candidate_device_nodes id)

-- path.Join of the directory and a file's name, which holds no slash
abbrev pub path_or_empty : Option Str → Str
path_or_empty none = []
path_or_empty (some file) = by_id ++ file

module _ {State : Type 0} (host : Host State) where
  -- A call that cannot fail.
  abbrev pub call : {A : Type 0} → (State → A × State) → Exec State A
  call f s = let (a, t) = f s in (ok a, t)

  unfoldable pub list_candidates : Str → Exec State Str
  list_candidates id = do
    files ← call (host.read_dir by_id)
    pure (path_or_empty (find (is_candidate id) files.0))

  -- GetDevicePathBySerialID
  unfoldable pub get_device_path_by_serial_id : Str → Exec State Str
  unfolding list_candidates
  get_device_path_by_serial_id id =
      if leb serial_length (length id) then list_candidates id else abort

  -- The device of the volume in the metadata of the instance.
  abbrev pub is_disk_of : Str → DeviceMetadata → Bool
  is_disk_of id d = d.kind == codes "disk" && d.serial == id

  abbrev pub disk_pattern : DeviceMetadata → Str
  disk_pattern d = codes "/dev/disk/by-path/*-" ++ (d.bus ++ (b'-' ∷ d.address))

  -- One path is the answer; errors and other counts are only logged.
  unfoldable pub only_path : Err ⊎ List Str → Str
  only_path (inl e) = []
  only_path (inr []) = []
  only_path (inr (p ∷ [])) = p
  only_path (inr (p ∷ q ∷ rest)) = []

  unfoldable pub path_of_device : Option DeviceMetadata → Exec State Str
  unfolding only_path
  path_of_device none = pure []
  path_of_device (some d) = do paths ← attempt (host.glob (disk_pattern d)); pure (only_path paths)

  unfoldable pub device_path_from_metadata : Str → Err ⊎ Option Metadata → Exec State Str
  unfolding path_of_device
  device_path_from_metadata id (inl e) = pure []
  device_path_from_metadata id (inr none) = abort
  device_path_from_metadata id (inr (some md)) = path_of_device (find (is_disk_of id) md.devices)

  -- getDevicePathFromInstanceMetadata, which passes the version where `metadata.Get` takes the
  -- search order
  unfoldable pub get_device_path_from_instance_metadata : Str → Exec (Cached host × State) Str
  unfolding device_path_from_metadata
  get_device_path_from_instance_metadata id = do
    md ← attempt (get host (codes "2016-06-30"))
    world (device_path_from_metadata id md)

abbrev pub device_steps : ℕ
device_steps = 15

-- What is returned after the loop, by its error and the last path.
unfoldable pub found_path : Outcome (Unit {0}) → Str → Outcome Str
found_path panic path = panic
found_path (ok _) [] = err (failure "device path was empty for volumeID: %q")
found_path (ok _) (c ∷ path) = ok (c ∷ path)
found_path (err e) path =
    if error_is e wait_timeout
    then err (failure "failed to find device for the volumeID: %q within the alloted time")
    else if path == []
    then err (failure "device path was empty for volumeID: %q")
    else ok path

module _ {State : Type 0} (host : Host State) (backoff : Backoff (Option Metadata × State)) where
  abbrev pub Searching : Type 0
  Searching = Str × (Option Metadata × State)

  unfoldable pub by_metadata : Str → Str → Exec Searching Bool
  by_metadata id (c ∷ path) = pure true
  by_metadata id [] = do
    path ← world (get_device_path_from_instance_metadata host id)
    assign path
    pure (not (path == []))

  -- One check: the closure sets `devicePath`.
  unfoldable pub device_check : Str → Exec Searching Bool
  unfolding by_metadata
  device_check id = do
    path ← world (world (get_device_path_by_serial_id host id))
    assign path
    by_metadata id path

  -- GetDevicePath of volumes.go
  unfoldable pub get_device_path : Str → Exec (Option Metadata × State) Str
  unfolding device_check found_path
  get_device_path id s =
      let (r, (path, t)) = backoff Str device_steps (device_check id) ([], s) in
      (found_path r path, t)
