-- ===== src/Tests/Settled.antt =====
-- A cloud that has what a Service asks for, at concrete data.
use edgecenter_ccm.Loadbalancer.Retry.{wait_active}
use edgecenter_ccm.Loadbalancer.Pools.{index_pools}
use edgecenter_ccm.Loadbalancer.Names.{
  get_load_balancer_name, get_security_group_name, pool_member_key, pool_member_create_key,
  service_port_key,
}
use edgecenter_ccm.Loadbalancer.Members.{
  node_address_for_lb, desired_members, node_ips, members_changed,
}
use edgecenter_ccm.Loadbalancer.Options.Secrets.{get_secret_id}
use edgecenter_ccm.Util.SourceRanges.{get_load_balancer_source_ranges}
use edgecenter_ccm.Loadbalancer.Options.Annotations.{
  get_string_from_service_annotation, get_bool_from_service_annotation, parse_listener_timeouts,
  get_timeout,
}
use edgecenter_ccm.Loadbalancer.Options.Resolve.{
  resolve_service_options, class_options, check_protocols, check_source_ranges,
  affinity_persistence, supported_method,
}
use edgecenter_ccm.Prelude.{
  Str, some, true, [], ◌∷◌, ok, codes, str_eq, nat_eq, int_eq, ◌≡◌, refl, arith, split, trim_space,
  lookup, decimal, trim_suffix, insert, to_lower, false, ◌≢◌, inr,
}
use edgecenter_ccm.Cloud.Types.{
  Service, Node, Listener, Pool, address_type_eq, protocol_eq, status_eq, internal_ip,
}
use edgecenter_ccm.Cloud.Wait.{run_backoff}
use edgecenter_ccm.SecurityGroups.Ensure.{port_rule, group_id, has_ports, ensure_security_group}
use edgecenter_ccm.SecurityGroups.Ensure.Settled.{
  as_asked, IsGrouped, ensure_security_group-IsGrouped,
}
use edgecenter_ccm.Cloud.Types.{SecurityGroup, SecurityGroupRule, Instance, FloatingIp}
use edgecenter_ccm.Loadbalancer.Options.Config.{Config, ServiceOptions}
use edgecenter_ccm.Cloud.Client.{Client}
use edgecenter_ccm.Instances.Lookup.{get_instance_by_node}
use edgecenter_ccm.Loadbalancer.Options.Networks.{after_last_slash}
use edgecenter_ccm.Loadbalancer.Settled.{Entry}
use edgecenter_ccm.Loadbalancer.Listeners.{
  resolve_listener_protocol, find_listener_for_service_port, listener_changes,
}
use edgecenter_ccm.Loadbalancer.Ensure.{ensure_load_balancer, public_address, manage_security_group}
use edgecenter_ccm.Loadbalancer.Ensure.Settled.{ensure_load_balancer-IsSettled}
use edgecenter_ccm.Loadbalancer.Find.{find_loadbalancer, get_loadbalancer_by_name}
use edgecenter_ccm.SecurityGroups.Ensure.{group_id}
use edgecenter_ccm.Tests.Memory.{World, memory}
use edgecenter_ccm.Tests.Loadbalancers.{svc, config, stale, http_port}
use edgecenter_ccm.Tests.Parts.{owned, resolved}
use edgecenter_ccm.Tests.Members.{full}

abbrev one_port : Service
one_port = record svc { ports = http_port ∷ [] }

abbrev http_listener : Listener
http_listener = record stale { id = codes "l80"; name = codes "l80"; protocol_port = 80 }

abbrev http_pool : Pool Str
http_pool = record full { listeners = codes "l80" ∷ [] }

abbrev settled_world : World
settled_world = record {
  loadbalancers = owned ∷ [];
  listeners = http_listener ∷ [];
  pools = http_pool ∷ [];
  next_id = 0;
}

abbrev node : Node
node = record {
  name = codes "node";
  provider_id = codes "edgecenter:///i-1";
  addresses = record { kind = internal_ip; address = codes "10.0.0.5" } ∷ [];
}

abbrev entry : Entry Str
entry = record { port = http_port; listener = http_listener; pool = http_pool }

abbrev http_rule : SecurityGroupRule
http_rule = as_asked (codes "r1") (port_rule memory (codes "sg") (codes "10.0.0.0/24") http_port)

abbrev group : SecurityGroup
group = record { id = codes "sg"; name = get_security_group_name one_port; rules = http_rule ∷ [] }

abbrev instance_of_node : Instance Str
instance_of_node = record {
  id = codes "i-1";
  name = codes "node";
  status = codes "ACTIVE";
  flavor_id = [];
  flavor_name = [];
  addresses = [];
  metadata = [];
  security_groups = get_security_group_name one_port ∷ [];
}

abbrev floating_ip : FloatingIp
floating_ip = record { id = codes "fip"; address = codes "203.0.113.5" }

-- The same cloud with the Service's security group, which the node has, and a floating IP.
abbrev grouped : Client
grouped = record memory {
  security_groups = record memory.security_groups {
    list = λ w. (ok (group ∷ []), w);
    get = λ id w. (ok group, w);
  };
  instances = record memory.instances { get = λ id w. (ok instance_of_node, w) };
  floatingips = record memory.floatingips { list_by_port = λ port w. (ok (floating_ip ∷ []), w) };
  subnet_cidr = λ id w. (ok (codes "10.0.0.0/24"), w);
}

abbrev external_config : Config
external_config = record config {
  floating_network_id = codes "ext";
  manage_security_groups = true;
  internal_lb = false;
}

abbrev external_options : ServiceOptions
external_options = record resolved {
  floating_network_id = codes "ext";
  internal = false;
  manage_security_groups = true;
}

named : codes "sg" ≢ []
unfolding codes
named e = cc

grouped_world : IsGrouped grouped one_port (node ∷ []) (codes "subnet") settled_world
unfolding codes str_eq nat_eq group_id get_security_group_name get_instance_by_node after_last_slash
    trim_suffix
grouped_world = (
  group ∷ [],
  codes "10.0.0.0/24",
  group,
  refl,
  named,
  refl,
  refl,
  ((codes "r1", [], [], refl), tt),
  ((instance_of_node, refl, refl), tt),
)

ensure_load_balancer-IsSettled_example :
    ensure_load_balancer grouped external_config one_port (node ∷ []) settled_world
    ≡ (ok (codes "203.0.113.5"), settled_world)
unfolding codes str_eq run_backoff resolve_service_options get_string_from_service_annotation
    class_options get_bool_from_service_annotation check_protocols check_source_ranges
    get_load_balancer_source_ranges split trim_space nat_eq affinity_persistence get_secret_id
    find_loadbalancer get_loadbalancer_by_name get_load_balancer_name trim_suffix wait_active
    find_listener_for_service_port resolve_listener_protocol listener_changes insert
    service_port_key to_lower decimal node_ips node_address_for_lb address_type_eq protocol_eq
    status_eq int_eq members_changed pool_member_key pool_member_create_key desired_members
    index_pools lookup public_address manage_security_group parse_listener_timeouts supported_method
    get_timeout group_id get_security_group_name get_instance_by_node after_last_slash
ensure_load_balancer-IsSettled_example =
    ensure_load_balancer-IsSettled grouped external_config one_port node [] external_options owned
      entry [] (some (codes "203.0.113.5")) settled_world refl refl
      (
        refl,
        (tt, tt),
        refl,
        (http_listener ∷ [], refl, ((refl, refl, refl), tt), (refl, tt)),
        (http_pool ∷ [], refl, (refl, tt), (refl, tt)),
        (codes "10.0.0.5" ∷ [], refl, ((λ e. omega (arith, e), refl), tt)),
        inr (refl, grouped_world),
      )
      (inr (refl, (floating_ip, refl, refl)))

ensure_security_group-IsGrouped_example :
    ensure_security_group grouped one_port (node ∷ []) (codes "subnet") settled_world
    ≡ (ok tt, settled_world)
unfolding has_ports
ensure_security_group-IsGrouped_example =
    ensure_security_group-IsGrouped grouped one_port (node ∷ []) (codes "subnet") settled_world refl
      grouped_world
