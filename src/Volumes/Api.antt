-- ===== src/Volumes/Api.antt =====
-- internal/edgecenter/volumes.go: the requests for volumes (Volumes), and how a volume is read.
use edgecenter_ccm.Prelude.{
  ℕ, Str, Option, none, some, List, [], ◌∷◌, codes, ◌==◌, str_eq, if◌then◌else◌, failure, Exec,
  pure, fail, deref, mapped, wrapping, quoting, ◌>>=◌,
}
use edgecenter_ccm.Cloud.Types.{CloudVolume}
use edgecenter_ccm.Cloud.Client.{Client}

-- Volume; an attached server ID of "" is no attachment
pub record Volume : Type 0 where
  pub attached_server_id : Str
  pub attached_device : Str
  pub availability_zone : Str
  pub id : Str
  pub name : Str
  pub status : Str
  pub size : ℕ

abbrev pub available : Str
available = codes "available"

abbrev pub in_use : Str
in_use = codes "in-use"

abbrev attachment : List (Str × Str) → Str × Str
attachment [] = ([], [])
attachment (a ∷ rest) = a

-- The volume of the API with its first attachment.
unfoldable pub from_cloud : CloudVolume → Volume
from_cloud v = record {
  attached_server_id = (attachment v.attachments).0;
  attached_device = (attachment v.attachments).1;
  availability_zone = v.availability_zone;
  id = v.id;
  name = v.name;
  status = v.status;
  size = v.size;
}

module _ (c : Client) where
  open c use {State, volumes, volume_type_is_valid}

  unfoldable pub get_volume : Str → Exec State Volume
  unfolding from_cloud
  get_volume id = do
    v ← quoting "error occurred getting volume by ID: %s, err: " (volumes.get id)
    pure (from_cloud v)

  abbrev pub head_id : List Str → Option Str
  head_id [] = none
  head_id (id ∷ ids) = some id

  abbrev pub volume_type : Str → Str
  volume_type kind = if volume_type_is_valid kind then kind else codes "standard"

  unfoldable pub created_volume : CloudVolume → Exec State (Str × Str)
  created_volume v =
      if v.status == available
      then pure (v.id, v.availability_zone)
      else fail (failure "unaccessible volume %v state after creation: %s")

  -- createVolume: the ID and the zone
  unfoldable pub create_volume : Str → ℕ → Str → Exec State (Str × Str)
  unfolding created_volume
  create_volume name size kind = do
    created ←
        wrapping "create volume task failed with opts: %v. Error: "
          (volumes.create name size (volume_type kind))
    id ← deref (head_id created)
    v ← wrapping "cannot get volume with ID: %s. Error: " (volumes.get id)
    created_volume v

  -- deleteVolume: the error of the API is not kept
  unfoldable pub delete_volume : Str → Exec State (Unit {0})
  delete_volume id s =
      let (r, t) = volumes.delete id s in
      (mapped (λ e. failure "cannot delete volume with ID: %s") r, t)

  unfoldable pub extend : Str → ℕ → Exec State (Unit {0})
  extend id size = do
    tasks ← volumes.extend id size
    task ← deref (head_id tasks)
    volumes.wait_for_task task

  -- expandVolume
  unfoldable pub expand_volume : Str → ℕ → Str → Exec State (Unit {0})
  unfolding extend
  expand_volume id size status =
      if status == available
      then extend id size
      else fail (failure "volume status is not 'available'")
