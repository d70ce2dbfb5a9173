-- ===== src/Cloud/Host.antt =====
-- The operating system, the metadata service and the commands that the code uses on its own host,
-- over the same unknown state as the API.
use edgecenter_ccm.Prelude.{ℕ, Str, Option, List, Bool, Exec, Outcome, Err}

-- A device of the instance's metadata
pub record DeviceMetadata : Type 0 where
  pub kind : Str
  pub bus : Str
  pub serial : Str
  pub address : Str

-- Metadata of internal/util/metadata/metadata.go
pub record Metadata : Type 0 where
  pub uuid : Str
  pub name : Str
  pub availability_zone : Str
  pub devices : List DeviceMetadata

-- unix.Statfs
pub record FsStats : Type 0 where
  pub block_size : ℕ
  pub blocks : ℕ
  pub blocks_free : ℕ
  pub blocks_available : ℕ
  pub files : ℕ
  pub files_free : ℕ

pub record Host (State : Type 0) : Type 0 where
  -- the entries that were read, and the error that ended the reading
  pub read_dir : Str → State → (List Str × Option Err) × State
  pub read_file : Str → Exec State Str
  pub write_file : Str → Str → Exec State (Unit {0})
  -- os.OpenFile with O_CREATE, and os.MkdirAll
  pub create_file : Str → Exec State (Unit {0})
  pub make_dirs : Str → Exec State (Unit {0})
  pub remove : Str → Exec State (Unit {0})
  -- os.IsNotExist of the error of os.Stat
  pub is_missing : Str → Exec State Bool
  pub is_not_exist : Err → Bool
  pub is_exist : Err → Bool
  pub temp_dir : Str
  -- filepath.Join and filepath.Glob
  pub join : Str → Str → Str
  pub glob : Str → Exec State (List Str)
  pub eval_symlinks : Str → Exec State Str
  -- a command and its arguments, with its combined output
  pub run : List Str → Exec State Str
  -- mount-utils: the device, the directory and the type of the file system
  pub mount : Str → Str → Str → Exec State (Unit {0})
  pub unmount : Str → Exec State (Unit {0})
  pub path_exists : Str → Exec State Bool
  pub is_likely_not_mount_point : Str → Exec State (Bool × Option Err)
  pub cleanup_mount_point : Str → Exec State (Unit {0})
  -- the mode bits say that the path is a block device; the offset of the end of an open file
  pub stat_is_block : Str → Exec State Bool
  pub open_file : Str → Exec State (Unit {0})
  pub seek_end : Str → Exec State ℕ
  pub statfs : Str → Exec State FsStats
  -- http.Get: whether the status is 200, and the body
  pub http_get : Str → Exec State (Bool × Str)
  -- the JSON decoder
  pub decode_metadata : Str → Outcome Metadata
