-- ===== src/Tests/Parts.antt =====
-- The theorems on parts of the code at concrete data.
use edgecenter_ccm.Util.SourceRanges.{get_load_balancer_source_ranges}
use edgecenter_ccm.Loadbalancer.Options.Annotations.{
  get_bool_from_service_annotation, get_string_from_service_annotation, parse_listener_timeouts,
  get_timeout,
}
use edgecenter_ccm.Prelude.{
  ◌⊎◌, int_eq, Str, none, some, true, false, [], ◌∷◌, ◌++◌, ok, ◌≡◌, refl, ◌↔◌, ◌≤◌, codes, nat_eq,
  str_eq, pos, length, split, trim_space,
}
use edgecenter_ccm.Cloud.Types.{
  Loadbalancer, Instance, SecurityGroupRule, round_robin, persist_source_ip, status_eq, protocol_eq,
}
use edgecenter_ccm.Loadbalancer.Options.Config.{ServiceOptions}
use edgecenter_ccm.Loadbalancer.Options.Secrets.{get_secret_id}
use edgecenter_ccm.Loadbalancer.Options.Resolve.{
  resolve_service_options, class_options, check_protocols, check_source_ranges,
  affinity_persistence, supported_method,
}
use edgecenter_ccm.Loadbalancer.Options.Resolve.Checked.{Checked, resolve_service_options-Checked}
use edgecenter_ccm.Loadbalancer.Find.{get_loadbalancer_by_name}
use edgecenter_ccm.Loadbalancer.Find.Unique.{SoleOfName, get_loadbalancer_by_name-SoleOfName}
use edgecenter_ccm.Loadbalancer.Listeners.{listener_changes, update_listener_if_needed}
use edgecenter_ccm.Loadbalancer.Retry.{wait_active}
use edgecenter_ccm.Cloud.Wait.{run_backoff}
use edgecenter_ccm.Loadbalancer.Listeners.Changes.{
  IsUpToDate, Sends, update_listener_if_needed-Sends,
}
use edgecenter_ccm.Cloud.Types.{Listener, ListenerUpdate}
use edgecenter_ccm.Loadbalancer.Names.{
  build_listener_name, build_pool_name, get_load_balancer_name, get_security_group_name,
  max_name_length,
}
use edgecenter_ccm.Loadbalancer.Names.Bounds.{names-Bounded}
use edgecenter_ccm.SecurityGroups.Rules.{RuleListOpts}
use edgecenter_ccm.Instances.ProviderId.{
  instance_id_from_provider_id, build_provider_id, has_slash, with_scheme, scheme,
}
use edgecenter_ccm.Instances.ProviderId.RoundTrip.{
  instance_id_from_provider_id-build_provider_id, instance_id_from_provider_id-eq-ok,
}
use edgecenter_ccm.Instances.Addresses.{NetworkingOpts, node_addresses}
use edgecenter_ccm.Instances.Addresses.Distinct.{AllApart, node_addresses-AllApart}
use edgecenter_ccm.Tests.Memory.{World, memory}
use edgecenter_ccm.Tests.Loadbalancers.{lb, world, svc, nodes, config, stale, http_port}

get_loadbalancer_by_name-SoleOfName_example :
    (get_loadbalancer_by_name memory (codes "svc") (codes "au1") world ≡ (ok lb, world))
    ↔ SoleOfName memory (codes "svc") (codes "au1") (lb ∷ []) lb
get_loadbalancer_by_name-SoleOfName_example =
    get_loadbalancer_by_name-SoleOfName memory (codes "svc") (codes "au1") (lb ∷ []) lb world world
      refl

-- The load balancer that the Service asks for.
abbrev pub owned : Loadbalancer Str
owned = record lb { name = codes "svc_c1_default_web" }

abbrev owning : World
owning = record world { loadbalancers = owned ∷ [] }

abbrev pub resolved : ServiceOptions
resolved = record {
  flavor_id = codes "lb1-1-2";
  network_id = codes "net";
  subnet_id = codes "subnet";
  floating_network_id = [];
  internal = true;
  keep_client_ip = false;
  use_proxy_protocol = false;
  secret_id = [];
  timeouts = some (record { client_data = none; member_data = none; member_connect = none });
  lb_method = round_robin;
  session_persistence = some persist_source_ip;
  create_monitor = true;
  manage_security_groups = false;
}

resolve_service_options-Checked_example : Checked memory config svc resolved
unfolding resolve_service_options codes str_eq get_string_from_service_annotation class_options
    get_bool_from_service_annotation check_protocols check_source_ranges
    get_load_balancer_source_ranges split trim_space nat_eq affinity_persistence get_secret_id
    parse_listener_timeouts supported_method get_timeout
resolve_service_options-Checked_example =
    resolve_service_options-Checked memory config svc nodes resolved world world refl

abbrev timed : Listener
timed = record stale { timeout_client_data = some (pos 5) }

update_listener_if_needed-Sends_example :
    (IsUpToDate timed resolved × (world ≡ world))
    ⊎ (¬ (IsUpToDate timed resolved)
        × ((req : ListenerUpdate) × (u : World) × Sends timed resolved req
            × (memory.loadbalancers.listener_update timed.id req world ≡ (ok tt, u))
            × (wait_active memory (codes "lb") u ≡ (ok tt, world))))
unfolding update_listener_if_needed listener_changes str_eq codes run_backoff wait_active int_eq
update_listener_if_needed-Sends_example =
    update_listener_if_needed-Sends memory (codes "lb") timed resolved world world refl

names-Bounded_example :
    (length (build_listener_name (codes "lb") http_port) ≤ max_name_length)
    × (length (build_pool_name (codes "lb") http_port) ≤ max_name_length)
    × (length (get_load_balancer_name (codes "c1") svc) ≤ max_name_length)
    × (length (get_security_group_name svc) ≤ max_name_length)
names-Bounded_example = names-Bounded (codes "lb") (codes "c1") http_port svc

abbrev pub rule : SecurityGroupRule
rule = record {
  id = codes "r";
  security_group_id = codes "sg";
  remote_group_id = [];
  direction = codes "ingress";
  ether_type = some (codes "IPv4");
  protocol = some (codes "tcp");
  port_range_max = some 30080;
  port_range_min = some 30080;
  remote_ip_prefix = some (codes "10.0.0.0/24");
}

abbrev port_opts : RuleListOpts
port_opts = record {
  id = [];
  security_group_id = codes "sg";
  remote_group_id = [];
  direction = codes "ingress";
  ether_type = [];
  protocol = codes "tcp";
  port_range_max = 30080;
  port_range_min = 30080;
  remote_ip_prefix = codes "10.0.0.0/24";
}

instance_id_from_provider_id-build_provider_id_example :
    instance_id_from_provider_id (build_provider_id (codes "i-1")) ≡ ok (codes "i-1")
unfolding codes has_slash nat_eq
instance_id_from_provider_id-build_provider_id_example =
    instance_id_from_provider_id-build_provider_id (codes "i-1") (λ e. cc) refl

instance_id_from_provider_id-eq-ok_example :
    ¬ (codes "i-1" ≡ [])
    × (has_slash (codes "i-1") ≡ false)
    × (with_scheme (codes "/i-1") ≡ scheme ++ codes "i-1")
unfolding instance_id_from_provider_id codes nat_eq str_eq
instance_id_from_provider_id-eq-ok_example =
    instance_id_from_provider_id-eq-ok (codes "/i-1") (codes "i-1") refl

abbrev pub dual : Instance Str
dual = record {
  id = codes "i-1";
  name = codes "node";
  status = codes "ACTIVE";
  flavor_id = codes "g1";
  flavor_name = [];
  addresses =
      (
        codes "net",
        record { address = some (codes "10.0.0.5"); is_floating = false }
            ∷ record { address = some (codes "10.0.0.5"); is_floating = false }
            ∷ record { address = some (codes "203.0.113.5"); is_floating = true }
            ∷ [],
      )
      ∷ [];
  metadata = [];
  security_groups = [];
}

abbrev networking : NetworkingOpts
networking = record {
  ipv6_support_disabled = false;
  public_network_name = codes "public";
  internal_network_name = [];
}

node_addresses-AllApart_example : AllApart (node_addresses memory.ip networking dual)
node_addresses-AllApart_example = node_addresses-AllApart memory.ip networking dual
