-- ===== src/Tests/Hosts.antt =====
-- A host whose config drive cannot be mounted and whose metadata service answers; its state counts
-- the requests to that service. It has one disk and one file of cloud-init.
use edgecenter_ccm.Prelude.{ℕ, ◌+◌, Str, none, true, false, [], ◌∷◌, ◌++◌, codes, Err, api, ok, err}
use edgecenter_ccm.Cloud.Host.{Host, Metadata}

abbrev pub volume_id : Str
volume_id = codes "0123456789abcdefghij-k"

abbrev pub disk_file : Str
disk_file = codes "virtio-0123456789abcdefghij"

abbrev pub local_metadata : Metadata
local_metadata = record {
  uuid = codes "i-1";
  name = codes "node-1";
  availability_zone = codes "zone";
  devices = [];
}

abbrev pub refused : Err
refused = api (codes "refused")

abbrev pub small_host : Host ℕ
small_host = record {
  read_dir = λ path n. (((disk_file ∷ []), none), n);
  read_file = λ path n. (ok (codes " i-2 "), n);
  write_file = λ path text n. (ok tt, n);
  create_file = λ path n. (ok tt, n);
  make_dirs = λ path n. (ok tt, n);
  remove = λ path n. (ok tt, n);
  is_missing = λ path n. (ok false, n);
  is_not_exist = λ e. true;
  is_exist = λ e. true;
  temp_dir = codes "/tmp";
  join = λ a b. a ++ (b'/' ∷ b);
  glob = λ pattern n. (ok [], n);
  eval_symlinks = λ path n. (ok path, n);
  run = λ args n. (ok [], n);
  mount = λ device dir kind n. (err refused, n);
  unmount = λ dir n. (ok tt, n);
  path_exists = λ path n. (ok true, n);
  is_likely_not_mount_point = λ path n. (ok (true, none), n);
  cleanup_mount_point = λ path n. (ok tt, n);
  stat_is_block = λ path n. (ok true, n);
  open_file = λ path n. (ok tt, n);
  seek_end = λ path n. (ok 4096, n);
  statfs = λ path n. (
    ok (record {
      block_size = 512;
      blocks = 100;
      blocks_free = 40;
      blocks_available = 30;
      files = 10;
      files_free = 4;
    }),
    n,
  );
  http_get = λ url n. (ok (true, []), n + 1);
  decode_metadata = λ text. ok local_metadata;
}

-- The same host with a metadata service that answers nothing.
abbrev pub mute_host : Host ℕ
mute_host = record small_host { http_get = λ url n. (err refused, n + 1) }
