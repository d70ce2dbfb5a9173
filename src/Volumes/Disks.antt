-- ===== src/Volumes/Disks.antt =====
-- internal/edgecenter/volumes.go: attaching, detaching, growing and removing volumes.
pub mod Safety
pub mod Changes
pub mod Recorded
use edgecenter_ccm.Prelude.{
  ℕ, Str, Option, none, some, Bool, true, false, not, ◌||◌, ◌&&◌, List, [], ◌∷◌, ◌⊎◌, inl, inr,
  codes, ◌==◌, leb, str_eq, if◌then◌else◌, to_lower, Dict, insert, ℤ, pos, negsuc, Err, failure,
  not_found, error_is, Exec, Outcome, ok, err, pure, fail, lift, attempt, wrapping, quoting, ◌>>=◌,
  ◌>>◌,
}
use edgecenter_ccm.Cloud.Client.{Client}
use edgecenter_ccm.Volumes.Errors.{new_deleted_volume_in_use_error, new_dangling_error}
use edgecenter_ccm.Volumes.Size.{round_up_to_gib_int}
use edgecenter_ccm.Volumes.Api.{
  Volume, available, in_use, get_volume, create_volume, delete_volume, expand_volume,
}

module _ (c : Client) where
  open c use {State, instances, volumes}

  -- GetNodeNameByID of edgecenter.go
  unfoldable pub get_node_name_by_id : Str → Exec State Str
  get_node_name_by_id id = do instance ← instances.get id; pure (to_lower instance.name)

  -- The volume is attached to another instance: the error names its node, if the node is known.
  unfoldable pub attached_elsewhere : Volume → Err ⊎ Str → Exec State Str
  attached_elsewhere v (inl e) =
      fail (failure "disk %s path %s is attached to a different instance (%s)")
  attached_elsewhere v (inr node) = fail (
      new_dangling_error "disk %s path %s is attached to a different instance (%s)" node
        v.attached_device)

  unfoldable pub attach : Str → Str → Exec State Str
  attach instance_id volume_id = do
    v ← quoting "failed to attach %s volume to %s compute: " (volumes.attach volume_id instance_id)
    pure v.id

  -- AttachDisk: the volume's ID
  unfoldable pub attach_disk : Str → Str → Exec State Str
  unfolding attached_elsewhere attach
  attach_disk instance_id volume_id = do
    v ← get_volume c volume_id
    let refuse : Exec State Str = (do
      node ← attempt (get_node_name_by_id v.attached_server_id)
      attached_elsewhere v node)
    if v.attached_server_id == []
        then attach instance_id volume_id
        else if instance_id == v.attached_server_id
        then pure v.id
        else refuse

  -- DetachDisk
  unfoldable pub detach_disk : Str → Str → Exec State (Unit {0})
  detach_disk instance_id volume_id = do
    v ← get_volume c volume_id
    if v.status == available
        then pure tt
        else if not (v.status == in_use)
        then fail (failure "can not detach volume %s, its status is %s")
        else if not (v.attached_server_id == instance_id)
        then fail (failure "disk: %s has no attachments or is not attached to compute: %s")
        else quoting "failed to delete volume %s from compute %s attached "
            (volumes.detach volume_id instance_id)

  -- `volume.Size >= volSizeGiB`, and the request where it does not hold
  unfoldable pub grow : Str → Volume → ℤ → Exec State ℤ
  grow volume_id v (negsuc n) = pure (negsuc n)
  grow volume_id v (pos n) =
      let expand : Exec State ℤ = (do expand_volume c volume_id n v.status; pure (pos n)) in
      if leb n v.size then pure (pos n) else expand

  -- ExpandVolume: from a size in bytes to the new size in GiB. With an error the caller gets the
  -- old size back.
  unfoldable pub expand_disk : ℕ → Str → ℤ → Exec State ℤ
  unfolding grow
  expand_disk bits volume_id new_size = do
    v ← get_volume c volume_id
    gib_size ← lift (round_up_to_gib_int bits new_size)
    grow volume_id v gib_size

  -- CreateVolume: the ID, the zone and the region. The fourth value that it returns is the option
  -- IgnoreVolumeAZ in every case, and is left out; the zone that is asked for and the tags are not used.
  unfoldable pub create_disk : Str → Str → ℕ → Str → Exec State (Str × Str × Str)
  create_disk region name size kind = do
    created ← wrapping "failed to create a %d GB volume: " (create_volume c name size kind)
    pure (created.0, created.1, region)

  -- diskIsUsed
  unfoldable pub disk_is_used : Str → Exec State Bool
  disk_is_used volume_id = do v ← get_volume c volume_id; pure (not (v.attached_server_id == []))

  -- DeleteVolume
  unfoldable pub delete_disk : Str → Exec State (Unit {0})
  delete_disk volume_id = do
    used ← disk_is_used volume_id
    if used
        then fail (
            new_deleted_volume_in_use_error
              "Cannot delete the volume %q, it's still attached to a node")
        else delete_volume c volume_id

  -- DiskIsAttached
  unfoldable pub disk_is_attached : Str → Str → Exec State Bool
  disk_is_attached instance_id volume_id = do
    v ← get_volume c volume_id
    pure (instance_id == v.attached_server_id)

  -- What is recorded for a volume: an error that is not ErrNotFound counts as attached.
  abbrev pub recorded : Err ⊎ Bool → Bool
  recorded (inl e) = if error_is e not_found then false else true
  recorded (inr attached) = attached

  unfoldable pub attached_loop : Str → List Str → Dict Bool → Exec State (Dict Bool)
  attached_loop instance_id [] attached = pure attached
  attached_loop instance_id (id ∷ ids) attached = do
    got ← attempt (disk_is_attached instance_id id)
    attached_loop instance_id ids (insert id (recorded got) attached)

  -- DisksAreAttached
  unfoldable pub disks_are_attached : Str → List Str → Exec State (Dict Bool)
  unfolding attached_loop
  disks_are_attached instance_id ids = attached_loop instance_id ids []

  -- GetLabelsForVolume, for the volume ID of a Cinder source
  unfoldable pub get_labels_for_volume : Str → Option Str → Exec State (Option (Dict Str))
  get_labels_for_volume region none = pure none
  get_labels_for_volume region (some volume_id) =
      let labels : Exec State (Option (Dict Str)) = (do
        v ← get_volume c volume_id
        pure (
            some (
              insert (codes "failure-domain.beta.kubernetes.io/zone") v.availability_zone
                (insert (codes "failure-domain.beta.kubernetes.io/region") region [])))) in
      if volume_id == codes "placeholder-for-provisioning" then pure none else labels
