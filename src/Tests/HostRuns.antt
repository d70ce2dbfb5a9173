-- ===== src/Tests/HostRuns.antt =====
-- Runs of the code that reads its own host.
use edgecenter_ccm.Metadata.Sources.{
  get_from_config_drive, get_from_metadata_service, parse_metadata,
}
use edgecenter_ccm.Prelude.{
  ◌≡◌, refl, Str, Option, none, some, codes, str_eq, ok, err, [], ◌∷◌, ◌⊎◌, ◌↔◌, ◌+◌, ◌*◌, ◌≤◌,
  arith, ◌++◌, split, quote, nat_eq, trim_space,
}
use edgecenter_ccm.Cloud.Host.{Metadata, FsStats}
use edgecenter_ccm.Tests.Hosts.{
  small_host, mute_host, local_metadata, volume_id, disk_file, refused,
}
use edgecenter_ccm.Metadata.Search.{get, search, get_from}
use edgecenter_ccm.Metadata.Search.Cache.{Searched, get-Searched_iff}
use edgecenter_ccm.Metadata.Order.{check_metadata_search_order}
use edgecenter_ccm.Metadata.Order.Valid.{
  FromSource, get-FromSource, IsValid, check_metadata_search_order-IsValid_iff,
}
use edgecenter_ccm.Provider.Config.{default_search_order}
use edgecenter_ccm.Cloud.Wait.{run_backoff, run_backoff-IsBackoff}
use edgecenter_ccm.Cloud.Wait.Ends.{run_backoff-IsTimed}
use edgecenter_ccm.Volumes.Devices.{
  by_id, get_device_path, get_device_path_by_serial_id, candidate_device_nodes,
}
use edgecenter_ccm.Volumes.Devices.Found.{Found, get_device_path-Found}
use edgecenter_ccm.Provider.Identity.{local_instance_id, read_instance_id, id_of_file}
use edgecenter_ccm.Provider.Identity.Kept.{IdOf, local_instance_id-Kept}
use edgecenter_ccm.Mounts.Attach.{tick, timer, attached, scan_for_attach, probe_volume}
use edgecenter_ccm.Mounts.Attach.Waiting.{EndsAs, scan_for_attach-EndsAs}
use edgecenter_ccm.Mounts.Stats.{file_system_stats}
use edgecenter_ccm.Mounts.Stats.Exact.{file_system_stats-exact}

get-Searched_iff_example :
    (get small_host default_search_order (none, 0)
      ≡ (ok (some local_metadata), (some local_metadata, 1)))
    ↔ ((md : Metadata) × (some local_metadata ≡ some md)
        × (some local_metadata ≡ some md)
        × Searched small_host (split b',' default_search_order) 0 md 1)
get-Searched_iff_example =
    get-Searched_iff small_host default_search_order 0 1 (some local_metadata) (some local_metadata)

found_metadata :
    get small_host default_search_order (none, 0)
    ≡ (ok (some local_metadata), (some local_metadata, 1))
unfolding get search split codes nat_eq get_from str_eq trim_space get_from_config_drive
    get_from_metadata_service parse_metadata
found_metadata = refl

no_metadata :
    get mute_host (codes "metadataService") (none, 0)
    ≡ (err (quote "error fetching %s: " refused), (none, 1))
unfolding get search split codes nat_eq get_from str_eq trim_space get_from_metadata_service
no_metadata = refl

service_order : check_metadata_search_order (codes "metadataService") ≡ ok tt
unfolding check_metadata_search_order codes split nat_eq str_eq trim_space
service_order = refl

get-FromSource_example :
    ◌≡◌ {A = Option Metadata} none none
    × FromSource mute_host (quote "error fetching %s: " refused) 1
get-FromSource_example =
    get-FromSource mute_host (codes "metadataService") (quote "error fetching %s: " refused) none 0
      1 service_order no_metadata

check_metadata_search_order-IsValid_iff_example :
    (check_metadata_search_order (codes "metadataService, configDrive") ≡ ok tt)
    ↔ IsValid (codes "metadataService, configDrive")
check_metadata_search_order-IsValid_iff_example =
    check_metadata_search_order-IsValid_iff (codes "metadataService, configDrive")

disk_path :
    get_device_path small_host run_backoff volume_id (none, 0)
    ≡ (ok (by_id ++ disk_file), (none, 0))
unfolding get_device_path run_backoff get_device_path_by_serial_id codes candidate_device_nodes
    str_eq
disk_path = refl

get_device_path-Found_example : Found small_host volume_id (by_id ++ disk_file) (none, 0)
get_device_path-Found_example =
    get_device_path-Found small_host volume_id run_backoff run_backoff-IsBackoff run_backoff-IsTimed
      (by_id ++ disk_file) (none, 0) (none, 0) disk_path

id_of_cloud_init :
    local_instance_id mute_host (codes "metadataService") ([], (none, 0))
    ≡ (ok (codes "i-2"), (codes "i-2", (none, 1)))
unfolding local_instance_id read_instance_id get search split codes nat_eq get_from str_eq
    trim_space get_from_metadata_service id_of_file
id_of_cloud_init = refl

local_instance_id-Kept_example :
    (codes "i-2" ≡ codes "i-2")
    × IdOf mute_host (codes "metadataService") (none, 0) (none, 1) (codes "i-2")
    × ((codes "i-2" ≡ [])
        ⊎ ((again : Str)
            → local_instance_id mute_host again (codes "i-2", (none, 1))
              ≡ (ok (codes "i-2"), (codes "i-2", (none, 1)))))
local_instance_id-Kept_example =
    local_instance_id-Kept mute_host (codes "metadataService") (codes "i-2") (codes "i-2") (none, 0)
      (none, 1) id_of_cloud_init

scanned : scan_for_attach small_host (codes "/dev/vdb") (tick ∷ timer ∷ []) 0 ≡ (ok attached, 0)
unfolding scan_for_attach probe_volume
scanned = refl

scan_for_attach-EndsAs_example : EndsAs small_host (codes "/dev/vdb") attached (tick ∷ timer ∷ []) 0
scan_for_attach-EndsAs_example =
    scan_for_attach-EndsAs small_host (codes "/dev/vdb") (tick ∷ timer ∷ []) attached 0 0 scanned

abbrev reported : FsStats
reported = record {
  block_size = 512;
  blocks = 100;
  blocks_free = 40;
  blocks_available = 30;
  files = 10;
  files_free = 4;
}

file_system_stats-exact_example :
    ((file_system_stats reported).used_bytes + 40 * 512 ≡ (file_system_stats reported).total_bytes)
    × ((file_system_stats reported).total_bytes ≡ 100 * 512)
    × ((file_system_stats reported).used_bytes + (file_system_stats reported).available_bytes
        ≤ (file_system_stats reported).total_bytes)
    × ((file_system_stats reported).used_inodes + (file_system_stats reported).available_inodes
        ≡ (file_system_stats reported).total_inodes)
file_system_stats-exact_example =
    file_system_stats-exact reported
      (omega arith, omega arith, omega arith, omega arith, omega arith, omega arith)
