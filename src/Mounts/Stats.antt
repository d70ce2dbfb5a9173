-- ===== src/Mounts/Stats.antt =====
-- internal/util/mount/mount.go: GetDeviceStats, with the arithmetic of int64.
pub mod Exact
use edgecenter_ccm.Prelude.{
  ℕ, ◌+◌, ◌-◌, ◌*◌, ◌%◌, ◌^◌, Str, Bool, true, false, if◌then◌else◌, Exec, pure, ◌>>=◌,
}
use edgecenter_ccm.Cloud.Host.{Host, FsStats}
use edgecenter_ccm.Mounts.Blocks.{is_block_device, get_block_device_size}

-- A signed or unsigned word of 64 bits is given by its bits: a number less than 2 ^ 64.
abbrev pub word : ℕ → ℕ
word n = n % 2 ^ 64

unfoldable pub times : ℕ → ℕ → ℕ
times a b = word (a * b)

unfoldable pub minus : ℕ → ℕ → ℕ
minus a b = word (a + (2 ^ 64 - word b))

pub record DeviceStats : Type 0 where
  pub block : Bool
  pub available_bytes : ℕ
  pub total_bytes : ℕ
  pub used_bytes : ℕ
  pub available_inodes : ℕ
  pub total_inodes : ℕ
  pub used_inodes : ℕ

unfoldable pub file_system_stats : FsStats → DeviceStats
unfolding times minus
file_system_stats fs = record {
  block = false;
  available_bytes = times fs.blocks_available fs.block_size;
  total_bytes = times fs.blocks fs.block_size;
  used_bytes = times (minus fs.blocks fs.blocks_free) fs.block_size;
  available_inodes = word fs.files_free;
  total_inodes = word fs.files;
  used_inodes = minus fs.files fs.files_free;
}

abbrev block_stats : ℕ → DeviceStats
block_stats size = record {
  block = true;
  available_bytes = 0;
  total_bytes = size;
  used_bytes = 0;
  available_inodes = 0;
  total_inodes = 0;
  used_inodes = 0;
}

module _ {State : Type 0} (host : Host State) where
  unfoldable pub get_device_stats : Str → Exec State DeviceStats
  unfolding file_system_stats
  get_device_stats path = do
    is_block ← is_block_device host path
    let of_block : Exec State DeviceStats = (do
      size ← get_block_device_size host path
      pure (block_stats size))
    let of_system : Exec State DeviceStats = (do fs ← host.statfs path; pure (file_system_stats fs))
    if is_block then of_block else of_system
