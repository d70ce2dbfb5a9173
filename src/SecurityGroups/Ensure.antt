-- ===== src/SecurityGroups/Ensure.antt =====
-- ensureSecurityGroup and EnsureSecurityGroupDeleted.
pub mod Admitted
pub mod Settled
use edgecenter_ccm.Prelude.{
  Str, Option, none, some, Bool, List, [], ◌∷◌, find, codes, ◌==◌, str_eq, if◌then◌else◌, failure,
  Exec, pure, fail, wrapping, quoting, ◌>>=◌, ◌>>◌,
}
use edgecenter_ccm.Cloud.Types.{
  ServicePort, Service, Node, SecurityGroup, SecurityGroupRule, RuleCreate,
}
use edgecenter_ccm.Cloud.Client.{Client}
use edgecenter_ccm.Loadbalancer.Names.{get_security_group_name}
use edgecenter_ccm.SecurityGroups.Rules.{RuleListOpts, get_security_group_rules, to_rule_protocol}
use edgecenter_ccm.SecurityGroups.Nodes.{
  apply_node_security_group_id_for_lb, disassociate_security_group_for_lb,
}

-- The ID of the first group of a name, "" if there is none.
abbrev id_or_empty : Option SecurityGroup → Str
id_or_empty none = []
id_or_empty (some g) = g.id

unfoldable pub group_id : Str → List SecurityGroup → Str
group_id name groups = id_or_empty (find (λ g. g.name == name) groups)

module _ (c : Client) where
  open c use {State, security_groups, subnet_cidr, rule_protocol_is_valid}

  abbrev pub port_filter : Str → Str → ServicePort → RuleListOpts
  port_filter group cidr port = record {
    id = [];
    security_group_id = group;
    remote_group_id = [];
    direction = codes "ingress";
    ether_type = [];
    protocol = to_rule_protocol rule_protocol_is_valid port.protocol;
    port_range_max = port.node_port;
    port_range_min = port.node_port;
    remote_ip_prefix = cidr;
  }

  abbrev pub port_rule : Str → Str → ServicePort → RuleCreate
  port_rule group cidr port = record {
    direction = codes "ingress";
    ether_type = codes "IPv4";
    protocol = to_rule_protocol rule_protocol_is_valid port.protocol;
    security_group_id = group;
    remote_group_id = none;
    port_range_max = port.node_port;
    port_range_min = port.node_port;
    remote_ip_prefix = some cidr;
  }

  unfoldable pub create_port_rule :
      Str → Str → ServicePort → List SecurityGroupRule → Exec State (Unit {0})
  create_port_rule group cidr port (rule ∷ rules) = pure tt
  create_port_rule group cidr port [] =
      wrapping "failed to create rule for security group %s: "
        (security_groups.rule_create group (port_rule group cidr port))

  -- The loop over the ports: a port with no matching rule gets one.
  unfoldable pub ensure_port_rules : Str → Str → List ServicePort → Exec State (Unit {0})
  unfolding create_port_rule
  ensure_port_rules group subnet_id [] = pure tt
  ensure_port_rules group subnet_id (port ∷ ports) = do
    cidr ← wrapping "failed to find subnet %s from edgecenter API: " (subnet_cidr subnet_id)
    rules ←
        wrapping "failed to find security group rules in %s: "
          (get_security_group_rules c (port_filter group cidr port))
    create_port_rule group cidr port rules
    ensure_port_rules group subnet_id ports

  unfoldable pub existing_or_created : Str → List SecurityGroup → Exec State Str
  existing_or_created name groups =
      let create : Exec State Str = (do
        created ←
            wrapping "failed to create Security Group for loadbalancer service %s/%s: opts: %+v "
              (security_groups.create name)
        pure created.id) in
      if group_id name groups == [] then create else pure (group_id name groups)

  unfoldable pub has_ports : List ServicePort → Exec State (Unit {0})
  has_ports [] = fail (failure "no ports provided to edgecenter load balancer")
  has_ports (p ∷ ports) = pure tt

  unfoldable pub ensure_security_group : Service → List Node → Str → Exec State (Unit {0})
  unfolding has_ports existing_or_created ensure_port_rules
  ensure_security_group svc nodes subnet_id = do
    has_ports svc.ports
    groups ← security_groups.list
    group ← existing_or_created (get_security_group_name svc) groups
    ensure_port_rules group subnet_id svc.ports
    apply_node_security_group_id_for_lb c nodes (get_security_group_name svc)

  unfoldable pub ensure_security_group_deleted : Bool → Service → Exec State (Unit {0})
  ensure_security_group_deleted use_octavia svc = do
    groups ← security_groups.list
    let id = group_id (get_security_group_name svc) groups
    let remove : Exec State (Unit {0}) = (do
      (if use_octavia
          then quoting "failed to disassociate security group %s: "
              (disassociate_security_group_for_lb c id (get_security_group_name svc))
          else pure tt)
      security_groups.delete id)
    if id == [] then pure tt else remove
