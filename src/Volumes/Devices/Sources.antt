-- ===== src/Volumes/Devices/Sources.antt =====
-- Where GetDevicePathBySerialID and getDevicePathFromInstanceMetadata of
-- internal/edgecenter/volumes.go take a path from, and that they return no error.
use edgecenter_ccm.Prelude.{
  find-eq-some, world-Keeps, Str, Option, none, some, Bool, true, false, List, [], ◌∷◌, ◌++◌, ◌⊎◌,
  inl, inr, codes, find, leb, length, nat_eq, str_eq, if◌then◌else◌, Err, Outcome, ok, err, panic,
  caught, continue, pure, In, NeverErrs, pure-NeverErrs, abort-NeverErrs, attempt-NeverErrs,
  if-NeverErrs, >>=-NeverErrs, world-NeverErrs, ok_injective, ◌≡◌, refl, ap, ◌∙◌, sym, arith, abort,
}
use edgecenter_ccm.Cloud.Host.{Host, Metadata, DeviceMetadata}
use edgecenter_ccm.Metadata.Search.{Cached, get}
use edgecenter_ccm.Volumes.Devices.Cold.{get_device_path_from_instance_metadata-empty}
use edgecenter_ccm.Volumes.Devices.{
  by_id, is_candidate, is_disk_of, disk_pattern, path_or_empty, list_candidates,
  get_device_path_by_serial_id, only_path, path_of_device, device_path_from_metadata,
  get_device_path_from_instance_metadata,
}

module _ {State : Type 0} (host : Host State) (id : Str) where
  -- A file of the directory that was read has one of the volume's names.
  abbrev pub FromSerial : Str → State → Type 0
  FromSerial path t =
      (s : State) × (files : List Str) × (e : Option Err) × (file : Str) × (host.read_dir by_id s
        ≡ ((files, e), t))
      × In file files
      × (is_candidate id file ≡ true)
      × (path ≡ by_id ++ file)

  -- A disk with the volume's serial is among the devices, and the path is the only match of the
  -- pattern of its bus and address, in the answer that ended in this state.
  abbrev pub OfDevices : List DeviceMetadata → Str → State → Type 0
  OfDevices devices path t =
      (s : State) × (d : DeviceMetadata) × In d devices
      × (d.kind ≡ codes "disk")
      × (d.serial ≡ id)
      × (host.glob (codes "/dev/disk/by-path/*-" ++ (d.bus ++ (b'-' ∷ d.address))) s
          ≡ (ok (path ∷ []), t))

  -- The device is one of the metadata that the cache holds.
  abbrev pub FromMetadata : Str → Cached host × State → Type 0
  FromMetadata path y = (md : Metadata) × (y.0 ≡ some md) × OfDevices md.devices path y.1

  list_candidates-Found :
      (s t : State) (path : Str)
      → list_candidates host id s ≡ (ok path, t)
      → (path ≡ []) ⊎ FromSerial path t
  unfolding list_candidates
  list_candidates-Found s t path h =
      by_file (find (is_candidate id) files) refl
        (ok_injective (ap (λ (x : Outcome Str × State). x.0) h))
    where
      files : List Str
      files = (host.read_dir by_id s).0.0

      by_file :
          (file : Option Str)
          → find (is_candidate id) files ≡ file
          → path_or_empty file ≡ path
          → (path ≡ []) ⊎ FromSerial path t
      by_file none e q = inl (sym q)
      by_file (some file) e q =
          let (listed, named) = find-eq-some (is_candidate id) files file e in
          inr (
            s,
            files,
            (host.read_dir by_id s).0.1,
            file,
            ap (λ (u : State). ((files, (host.read_dir by_id s).0.1), u))
                (ap (λ (x : Outcome Str × State). x.1) h),
            listed,
            named,
            sym q,
          )

  pub by_serial-Found :
      (s t : State) (path : Str)
      → get_device_path_by_serial_id host id s ≡ (ok path, t)
      → (path ≡ []) ⊎ FromSerial path t
  unfolding get_device_path_by_serial_id
  by_serial-Found s t path h = by_length (leb 20 (length id)) h
    where
      by_length :
          (b : Bool)
          → (if b then list_candidates host id else abort) s ≡ (ok path, t)
          → (path ≡ []) ⊎ FromSerial path t
      by_length true h = list_candidates-Found s t path h
      by_length false h = ground arith

  is_disk_of-eq-true :
      (d : DeviceMetadata) → is_disk_of host id d ≡ true → (d.kind ≡ codes "disk") × (d.serial ≡ id)
  is_disk_of-eq-true d h = ground arith

  path_of_device-Found :
      (devices : List DeviceMetadata) (d : Option DeviceMetadata) (s t : State) (path : Str)
      → ((e : DeviceMetadata) → d ≡ some e → In e devices × (is_disk_of host id e ≡ true))
      → path_of_device host d s ≡ (ok path, t)
      → (path ≡ []) ⊎ OfDevices devices path t
  unfolding path_of_device only_path
  path_of_device-Found devices none s t path is_disk h = inl (ground arith)
  path_of_device-Found devices (some d) s t path is_disk h =
      by_paths (host.glob (disk_pattern host d) s) refl h
    where
      by_paths :
          (x : Outcome (List Str) × State)
          → host.glob (disk_pattern host d) s ≡ x
          → (let (r, u) = x in continue (caught r) (λ paths. pure (only_path host paths)) u)
            ≡ (ok path, t)
          → (path ≡ []) ⊎ OfDevices devices path t
      by_paths (ok [], u) e h = inl (ground arith)
      by_paths (ok (p ∷ []), u) e h =
          let same : p ≡ path = ground arith in
          let (listed, test) = is_disk d refl in
          let (disk, serial) = is_disk_of-eq-true d test in
          inr (
            s,
            d,
            listed,
            disk,
            serial,
            e
                ∙ ap (λ (q : Str). (ok (q ∷ []), u)) same
                ∙ ap (λ (x : Outcome Str × State). (ok (path ∷ []), x.1)) h,
          )
      by_paths (ok (p ∷ q ∷ rest), u) e h = inl (ground arith)
      by_paths (err x, u) e h = inl (ground arith)
      by_paths (panic, u) e h = ground arith

  device_path_from_metadata-Found :
      (md : Metadata) (s t : State) (path : Str)
      → device_path_from_metadata host id (inr (some md)) s ≡ (ok path, t)
      → (path ≡ []) ⊎ OfDevices md.devices path t
  unfolding device_path_from_metadata
  device_path_from_metadata-Found md s t path h =
      path_of_device-Found md.devices (find (is_disk_of host id) md.devices) s t path
        (λ d e. find-eq-some (is_disk_of host id) md.devices d e) h

  pub by_metadata-Found :
      (x y : Cached host × State) (path : Str)
      → get_device_path_from_instance_metadata host id x ≡ (ok path, y)
      → (path ≡ []) ⊎ FromMetadata path y
  unfolding get_device_path_from_instance_metadata get
  by_metadata-Found (none, s) y path h = inl (
      sym (
        ok_injective (
          ap (λ (x : Outcome Str × (Cached host × State)). x.0)
            (sym (get_device_path_from_instance_metadata-empty host id s) ∙ h))))
  by_metadata-Found (some md, s) y path h =
      let (kept, ran) =
        world-Keeps (device_path_from_metadata host id (inr (some md))) (some md, s) y h in
      elim (device_path_from_metadata-Found md s y.1 path ran) [
        | inl e ↦ inl e
        | inr found ↦ inr (md, sym kept, found)
      ]

  pub by_serial-NeverErrs : NeverErrs (get_device_path_by_serial_id host id)
  unfolding get_device_path_by_serial_id list_candidates
  by_serial-NeverErrs =
      if-NeverErrs (leb 20 (length id)) (list_candidates host id) abort (λ s t e h. ground arith)
        abort-NeverErrs

  path_of_device-NeverErrs : (d : Option DeviceMetadata) → NeverErrs (path_of_device host d)
  unfolding path_of_device
  path_of_device-NeverErrs none = pure-NeverErrs _
  path_of_device-NeverErrs (some d) =
      >>=-NeverErrs _ _ (attempt-NeverErrs _) (λ paths. pure-NeverErrs _)

  device_path_from_metadata-NeverErrs :
      (md : Err ⊎ Option Metadata) → NeverErrs (device_path_from_metadata host id md)
  unfolding device_path_from_metadata
  device_path_from_metadata-NeverErrs (inl e) = pure-NeverErrs _
  device_path_from_metadata-NeverErrs (inr none) = abort-NeverErrs
  device_path_from_metadata-NeverErrs (inr (some md)) = path_of_device-NeverErrs _

  pub from_metadata-NeverErrs : NeverErrs (get_device_path_from_instance_metadata host id)
  unfolding get_device_path_from_instance_metadata
  from_metadata-NeverErrs =
      >>=-NeverErrs _ _ (attempt-NeverErrs _)
        (λ md. world-NeverErrs _ (device_path_from_metadata-NeverErrs md))
