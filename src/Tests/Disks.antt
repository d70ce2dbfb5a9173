-- ===== src/Tests/Disks.antt =====
-- Runs of internal/edgecenter/volumes.go on a cloud with one volume.
use edgecenter_ccm.Prelude.{
  ◌≡◌, ◌↔◌, refl, Str, true, All, insert, Err, err, volume_in_use, codes, str_eq, pos, ok, [], ◌∷◌,
  List, int_eq, ℕ_discrete,
}
use edgecenter_ccm.Cloud.Types.{CloudVolume}
use edgecenter_ccm.Cloud.Client.{Client}
use edgecenter_ccm.Tests.Memory.{World, memory}
use edgecenter_ccm.Volumes.Api.{Volume, available, in_use, get_volume, delete_volume, expand_volume}
use edgecenter_ccm.Volumes.Disks.{
  attach_disk, expand_disk, delete_disk, disk_is_used, disks_are_attached, disk_is_attached,
}
use edgecenter_ccm.Volumes.Disks.Recorded.{Recorded, disks_are_attached-Recorded}
use edgecenter_ccm.Volumes.Errors.{is_deleted_volume_in_use}
use edgecenter_ccm.Volumes.Errors.Refused.{ReadAttached, delete_disk-ReadAttached_iff}
use edgecenter_ccm.Volumes.Disks.Safety.{Read, AttachedTo, attach_disk-Attached}
use edgecenter_ccm.Volumes.Disks.Changes.{GrownTo, delete_disk-Deleted, expand_disk-GrownTo}
use edgecenter_ccm.Volumes.Size.{round_up_to_gib_int}

abbrev empty_world : World
empty_world = record { loadbalancers = []; listeners = []; pools = []; next_id = 0 }

-- A volume of 5 GiB, with its status and its attachments.
abbrev volume_with : Str → List (Str × Str) → CloudVolume
volume_with status attachments = record {
  id = codes "vol";
  name = codes "data";
  status = status;
  size = 5;
  availability_zone = codes "zone";
  attachments = attachments;
}

abbrev with_volume : CloudVolume → Client
with_volume v = record memory {
  volumes = record {
    get = λ id w. (ok v, w);
    create = λ name size kind w. (ok (v.id ∷ []), w);
    delete = λ id w. (ok tt, record w { next_id = 1 });
    extend = λ id size w. (ok (codes "task" ∷ []), record w { next_id = size });
    wait_for_task = λ id w. (ok tt, w);
    attach = λ id instance w. (ok v, record w { next_id = 2 });
    detach = λ id instance w. (ok tt, record w { next_id = 3 });
  };
}

abbrev free_cloud : Client
free_cloud = with_volume (volume_with available [])

attached :
    attach_disk free_cloud (codes "node-1") (codes "vol") empty_world
    ≡ (ok (codes "vol"), record empty_world { next_id = 2 })
unfolding attach_disk get_volume str_eq
attached = refl

attach_disk-Attached_example :
    (v : Volume) × (u : World) × Read free_cloud (codes "vol") empty_world v u
    × AttachedTo free_cloud
        (codes "node-1")
        (codes "vol")
        v
        u
        (codes "vol")
        (record empty_world { next_id = 2 })
attach_disk-Attached_example =
    attach_disk-Attached free_cloud (codes "node-1") (codes "vol") (codes "vol") empty_world
      (record empty_world { next_id = 2 }) attached

deleted :
    delete_disk free_cloud (codes "vol") empty_world ≡ (ok tt, record empty_world { next_id = 1 })
unfolding delete_disk disk_is_used get_volume str_eq delete_volume
deleted = refl

delete_disk-Deleted_example :
    (v : Volume) × (u : World) × Read free_cloud (codes "vol") empty_world v u
    × (v.attached_server_id ≡ [])
    × (free_cloud.volumes.delete (codes "vol") u ≡ (ok tt, record empty_world { next_id = 1 }))
delete_disk-Deleted_example =
    delete_disk-Deleted free_cloud (codes "vol") empty_world (record empty_world { next_id = 1 })
      deleted

-- A request of 7 GiB and a byte.
grown :
    expand_disk free_cloud 64 (codes "vol") (pos 7516192769) empty_world
    ≡ (ok (pos 8), record empty_world { next_id = 8 })
unfolding expand_disk get_volume round_up_to_gib_int int_eq ℕ_discrete expand_volume str_eq codes
grown = refl

expand_disk-GrownTo_example :
    (v : Volume) × (u : World) × Read free_cloud (codes "vol") empty_world v u
    × (round_up_to_gib_int 64 (pos 7516192769) ≡ ok (pos 8))
    × GrownTo free_cloud (codes "vol") 8 v u (record empty_world { next_id = 8 })
expand_disk-GrownTo_example =
    expand_disk-GrownTo free_cloud 64 (codes "vol") (pos 7516192769) empty_world
      (record empty_world { next_id = 8 }) 8 grown

abbrev attached_cloud : Client
attached_cloud = with_volume (volume_with in_use ((codes "node-1", codes "/dev/sdb") ∷ []))

recorded_disks :
    disks_are_attached attached_cloud (codes "node-1") (codes "vol" ∷ []) empty_world
    ≡ (ok ((codes "vol", true) ∷ []), empty_world)
unfolding disks_are_attached disk_is_attached get_volume str_eq codes insert
recorded_disks = refl

disks_are_attached-Recorded_example :
    All (Recorded attached_cloud (codes "node-1") ((codes "vol", true) ∷ [])) (codes "vol" ∷ [])
disks_are_attached-Recorded_example =
    disks_are_attached-Recorded attached_cloud (codes "node-1") (codes "vol" ∷ [])
      ((codes "vol", true) ∷ []) empty_world empty_world recorded_disks

abbrev refusal : Err
refusal = volume_in_use "Cannot delete the volume %q, it's still attached to a node"

refused : delete_disk attached_cloud (codes "vol") empty_world ≡ (err refusal, empty_world)
unfolding delete_disk disk_is_used get_volume str_eq codes
refused = refl

delete_disk-ReadAttached_iff_example :
    (is_deleted_volume_in_use refusal ≡ true)
    ↔ ReadAttached attached_cloud (codes "vol") empty_world empty_world
delete_disk-ReadAttached_iff_example =
    delete_disk-ReadAttached_iff attached_cloud (codes "vol") empty_world empty_world refusal
      refused
