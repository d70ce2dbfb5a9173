-- ===== src/Provider/Services.antt =====
-- internal/edgecenter/edgecenter.go: the services that the object Edgecenter hands out (Instances,
-- InstancesV2, Zones, Clusters, volumeService) and its constant answers; the routes of routes.go.
use edgecenter_ccm.Prelude.{
  Str, ℤ, Option, none, some, Bool, true, false, List, [], codes, if◌then◌else◌, Exec, pure,
  Outcome, ok, err, panic,
}
use edgecenter_ccm.Instances.Addresses.{NetworkingOpts}
use edgecenter_ccm.Provider.Config.{BlockStorageOpts, MetadataOpts}
use edgecenter_ccm.Provider.Options.{Edgecenter}

abbrev pub provider_name : Str
provider_name = codes "edgecenter"

-- The object behind Instances and InstancesV2
pub record Instances (Client : Type 0) : Type 0 where
  pub client : Client
  pub opts : MetadataOpts
  pub networking_opts : NetworkingOpts

-- The object behind the operations on volumes
pub record Volumes (Client : Type 0) : Type 0 where
  pub client : Client
  pub opts : BlockStorageOpts

-- `(value, true)` is `some value`, and `(nil, false)` is `none`.
module _ {Client : Type 0} (ec : Edgecenter Client) where
  unfoldable pub instances : Option (Instances Client)
  instances =
      some (record {
        client = ec.client;
        opts = ec.metadata_opts;
        networking_opts = ec.networking_opts;
      })

  unfoldable pub instances_v2 : Option (Instances Client)
  instances_v2 =
      some (record {
        client = ec.client;
        opts = ec.metadata_opts;
        networking_opts = ec.networking_opts;
      })

  unfoldable pub zones : Option (Edgecenter Client)
  zones = some ec

  unfoldable pub clusters : Option (Unit {0})
  clusters = none

  -- The region, which the source ignores, is the argument.
  unfoldable pub volume_service : Str → Outcome (Volumes Client)
  volume_service region = ok (record { client = ec.client; opts = ec.bs_opts })

  -- ScrubDNS, HasClusterID
  unfoldable pub scrub_dns : List Str → List Str → List Str × List Str
  scrub_dns name_servers searches = (name_servers, searches)

  unfoldable pub has_cluster_id : Bool
  has_cluster_id = true

-- The methods of Routes, for a type of routes: none are listed, and nothing is created or deleted.
module _ {State Route : Type 0} where
  unfoldable pub list_routes : Str → Exec State (List Route)
  list_routes cluster_name = pure []

  unfoldable pub create_route : Str → Str → Route → Exec State (Unit {0})
  create_route cluster_name name_hint route = pure tt

  unfoldable pub delete_route : Str → Route → Exec State (Unit {0})
  delete_route cluster_name route = pure tt

-- caller: a call that can be disarmed
abbrev pub Caller : Type 0
Caller = Bool

unfoldable pub new_caller : Caller
new_caller = true

unfoldable pub disarm : Caller → Caller
disarm c = false

unfoldable pub call_armed :
    {State : Type 0} → Caller → Exec State (Unit {0}) → Exec State (Unit {0})
call_armed c f = if c then f else pure tt

abbrev set_duration : Outcome ℤ → Exec ℤ (Unit {0})
set_duration (ok res) d = (ok tt, res)
set_duration (err e) d = (err e, d)
set_duration panic d = (panic, d)

-- UnmarshalText of MyDuration, over time.ParseDuration: the duration is kept where there is an error.
unfoldable pub unmarshal_text : (Str → Outcome ℤ) → Str → Exec ℤ (Unit {0})
unmarshal_text parse_duration text d = set_duration (parse_duration text) d
