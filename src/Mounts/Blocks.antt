-- ===== src/Mounts/Blocks.antt =====
-- internal/util/blockdevice/blockdevice_linux.go: the size of a block device, and its rescan.
pub mod Grown
use edgecenter_ccm.Prelude.{
  ℕ, Str, Option, none, some, Bool, List, [], ◌∷◌, ◌⊎◌, inl, inr, codes, split, has_prefix, ltb,
  ◌==◌, nat_eq, if◌then◌else◌, Err, failure, quote, Exec, Outcome, ok, err, panic, pure, fail,
  attempt, quoting, ◌>>=◌, ◌>>◌,
}
use edgecenter_ccm.Cloud.Host.{Host}

module _ {State : Type 0} (host : Host State) where
  rescan_path : List Str → Exec State Str
  rescan_path (root ∷ dev ∷ name ∷ []) =
      if has_prefix dev (codes "dev")
      then host.eval_symlinks (
          host.join (host.join (host.join (codes "/sys/block") name) (codes "device"))
            (codes "rescan"))
      else fail (failure "illegal path for device ")
  rescan_path parts = fail (failure "illegal path for device ")

  unfoldable pub find_block_device_rescan_path : Str → Exec State Str
  unfolding rescan_path
  find_block_device_rescan_path path = do
    device_path ← host.eval_symlinks path
    rescan_path (split b'/' device_path)

  unfoldable pub is_block_device : Str → Exec State Bool
  is_block_device path = quoting "failed to stat() %q: " (host.stat_is_block path)

  unfoldable pub get_block_device_size : Str → Exec State ℕ
  get_block_device_size path = do
    host.open_file path
    quoting "error seeking to end of %s: " (host.seek_end path)

  unfoldable pub check_block_device_size : Str → ℕ → Exec State (Unit {0})
  check_block_device_size device_path new_size = do
    size ← get_block_device_size device_path
    if ltb size new_size
        then fail (failure "current volume size is less than expected one: %d < %d")
        else pure tt

  -- An error of the resolving or of the writing gives the error of the first check.
  unfoldable pub check_again : Str → ℕ → Err → Err ⊎ Unit {0} → Exec State (Unit {0})
  check_again device_path new_size first (inl e) = fail first
  check_again device_path new_size first (inr _) = check_block_device_size device_path new_size

  write_rescan : Err ⊎ Str → Exec State (Unit {0})
  write_rescan (inl e) = fail e
  write_rescan (inr path) = host.write_file path (codes "1")

  unfoldable pub rescan : Str → ℕ → Err ⊎ Unit {0} → Exec State (Unit {0})
  unfolding write_rescan check_again
  rescan device_path new_size (inr _) = pure tt
  rescan device_path new_size (inl first) = do
    path ← attempt (find_block_device_rescan_path device_path)
    written ← attempt (write_rescan path)
    check_again device_path new_size first written

  -- RescanBlockDeviceGeometry
  unfoldable pub rescan_block_device_geometry : Str → ℕ → Exec State (Unit {0})
  unfolding rescan
  rescan_block_device_geometry device_path new_size =
      let run : Exec State (Unit {0}) = (do
        checked ← attempt (check_block_device_size device_path new_size)
        rescan device_path new_size checked) in
      if new_size == 0 then pure tt else run
