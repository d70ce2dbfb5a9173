-- ===== src/Mounts/Stats/Exact.antt =====
-- Where the numbers of GetDeviceStats of internal/util/mount/mount.go are exact.
use native.Mathlib.Nat.{add-mul, mul-le-mul_right}
use edgecenter_ccm.Prelude.{ℕ, ◌+◌, ◌-◌, ◌*◌, ◌^◌, ◌≤◌, ◌<◌, ◌≡◌, refl, ap, sym, ◌∙◌, arith}
use edgecenter_ccm.Cloud.Host.{FsStats}
use edgecenter_ccm.Mounts.Stats.{times, minus, file_system_stats}

minus-exact : (a b : ℕ) → b ≤ a → a < 2 ^ 64 → minus a b ≡ a - b
unfolding minus
minus-exact a b h k = omega arith

times-exact : (a b : ℕ) → a * b < 2 ^ 64 → times a b ≡ a * b
unfolding times
times-exact a b h = omega arith

split_product : (b f k : ℕ) → f ≤ b → (b - f) * k + f * k ≡ b * k
split_product b f k h =
    let sum : (b - f) + f ≡ b = omega arith in sym (add-mul (b - f) f k) ∙ ap (λ (n : ℕ). n * k) sum

-- A file system that statfs may report: no more is free than there is, and its size in bytes is an
-- int64
abbrev pub IsReported : FsStats → Type 0
IsReported fs =
    (fs.blocks_free ≤ fs.blocks)
    × (fs.blocks_available ≤ fs.blocks_free)
    × (fs.files_free ≤ fs.files)
    × (fs.files < 2 ^ 63)
    × (fs.blocks < 2 ^ 63)
    × (fs.blocks * fs.block_size < 2 ^ 63)

-- For a file system with no more available than free blocks, no more free blocks and inodes
-- than it has, and whose blocks, inodes and size in bytes are below 2 ^ 63: the used and the
-- free bytes add up to the total, which is exact, the used and the available ones to no more
-- than that, and the inodes add up too.
pub file_system_stats-exact :
    (fs : FsStats)
    → IsReported fs
    → ((file_system_stats fs).used_bytes + fs.blocks_free * fs.block_size
        ≡ (file_system_stats fs).total_bytes)
      × ((file_system_stats fs).total_bytes ≡ fs.blocks * fs.block_size)
      × ((file_system_stats fs).used_bytes + (file_system_stats fs).available_bytes
          ≤ (file_system_stats fs).total_bytes)
      × ((file_system_stats fs).used_inodes + (file_system_stats fs).available_inodes
          ≡ (file_system_stats fs).total_inodes)
unfolding file_system_stats
file_system_stats-exact fs (free, available, files, few_files, few_blocks, small) =
    let parts = split_product fs.blocks fs.blocks_free fs.block_size free in
    let fewer = mul-le-mul_right fs.block_size available in
    let used = minus-exact fs.blocks fs.blocks_free free (omega arith) in
    let total = times-exact fs.blocks fs.block_size (omega arith) in
    let rest = times-exact fs.blocks_available fs.block_size (omega arith) in
    let spent = times-exact (fs.blocks - fs.blocks_free) fs.block_size (omega arith) in
    let inodes = minus-exact fs.files fs.files_free files (omega arith) in
    rw (used, total, rest, spent, inodes) (parts, refl, omega arith, omega arith)
