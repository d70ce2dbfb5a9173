-- ===== src/Mounts/Provider.antt =====
-- internal/util/mount/mount.go: the object of the mounts, of which a process keeps one, and the methods
-- that only pass it on. The library of mounts is a parameter.
use edgecenter_ccm.Prelude.{Str, Option, none, some, ok, Exec}
use edgecenter_ccm.Cloud.Host.{Host}

-- Mount, over SafeFormatAndMount
pub record Mount (BaseMounter : Type 0) : Type 0 where
  pub base_mounter : BaseMounter

module _ {State BaseMounter : Type 0} (get_base_mounter : BaseMounter) where
  -- GetMountProvider: the state begins with `MInstance`.
  unfoldable pub get_mount_provider : Exec (Option (Mount BaseMounter) × State) (Mount BaseMounter)
  get_mount_provider (some kept, s) = (ok kept, (some kept, s))
  get_mount_provider (none, s) =
      let made : Mount BaseMounter = record { base_mounter = get_base_mounter } in
      (ok made, (some made, s))

-- Mounter
unfoldable pub mounter : {BaseMounter : Type 0} → Mount BaseMounter → BaseMounter
mounter m = m.base_mounter

-- UnmountPath
unfoldable pub unmount_path : {State : Type 0} → Host State → Str → Exec State (Unit {0})
unmount_path host path = host.cleanup_mount_point path
