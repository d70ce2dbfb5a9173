-- ===== src/SecurityGroups/Update.antt =====
-- updateSecurityGroup and getNodeSecurityGroupID. sets.String of apimachinery is two arguments: the
-- sorted elements of a set that is made of a list, and the elements that one list has and another has
-- not, in the order of a Go map.
pub mod Covered
use edgecenter_ccm.Prelude.{
  ℕ, Str, Option, Bool, List, [], ◌∷◌, ◌++◌, map, codes, ◌==◌, str_eq, if◌then◌else◌, failure, Exec,
  pure, fail, wrapping, ◌>>=◌, ◌>>◌,
}
use edgecenter_ccm.Cloud.Types.{ServicePort, Service, Node, SecurityGroup, SecurityGroupRule}
use edgecenter_ccm.Cloud.Client.{Client}
use edgecenter_ccm.Instances.Lookup.{get_node_instance_id}
use edgecenter_ccm.Loadbalancer.Names.{get_security_group_name}
use edgecenter_ccm.SecurityGroups.Rules.{
  RuleListOpts, get_security_group_rules, create_node_security_group_rules,
}
use edgecenter_ccm.SecurityGroups.Nodes.{apply_node_security_group_id_for_lb}
use edgecenter_ccm.SecurityGroups.Ensure.{group_id, has_ports}

-- What the code uses of sets.String
pub record StringSets : Type 0 where
  pub sorted : List Str → List Str
  pub difference : List Str → List Str → List Str

module _ (c : Client) (sets : StringSets) where
  open c use {State, instances, security_groups, rule_protocol_is_valid}

  group_ids : List Node → Exec State (List Str)
  group_ids [] = pure []
  group_ids (node ∷ nodes) = do
    id ← get_node_instance_id c node
    groups ← instances.security_group_list id
    rest ← group_ids nodes
    pure (map (λ g. g.id) groups ++ rest)

  -- getNodeSecurityGroupID
  unfoldable pub get_node_security_group_id : List Node → Exec State (List Str)
  unfolding group_ids
  get_node_security_group_id nodes = do ids ← group_ids nodes; pure (sets.sorted ids)

  -- The filter for the rules of a node's group that admit the load balancer's group.
  abbrev pub node_filter : Str → Str → ServicePort → RuleListOpts
  node_filter group remote port = record {
    id = [];
    security_group_id = group;
    remote_group_id = remote;
    direction = codes "ingress";
    ether_type = [];
    protocol = port.protocol;
    port_range_max = port.node_port;
    port_range_min = port.node_port;
    remote_ip_prefix = [];
  }

  delete_rules : List SecurityGroupRule → Exec State (Unit {0})
  delete_rules [] = pure tt
  delete_rules (rule ∷ rules) = do
    wrapping "error occurred deleting security group rule: %s: " (security_groups.delete rule.id)
    delete_rules rules

  remove_stale : Str → ServicePort → List Str → Exec State (Unit {0})
  unfolding delete_rules
  remove_stale remote port [] = pure tt
  remove_stale remote port (removal ∷ removals) = do
    rules ←
        wrapping "error finding rules for remote group id %s in security group id %s: "
          (get_security_group_rules c (node_filter removal remote port))
    delete_rules rules
    remove_stale remote port removals

  unfoldable pub create_missing :
      Service → Str → ServicePort → Str → List SecurityGroupRule → Exec State (Unit {0})
  create_missing svc remote port group (rule ∷ rules) = pure tt
  create_missing svc remote port group [] =
      wrapping "error occurred creating security group for loadbalancer service %s/%s: " (
        create_node_security_group_rules c rule_protocol_is_valid group port.node_port port.protocol
          remote svc)

  unfoldable pub create_current : Service → Str → ServicePort → List Str → Exec State (Unit {0})
  unfolding create_missing
  create_current svc remote port [] = pure tt
  create_current svc remote port (group ∷ groups) = do
    rules ←
        wrapping "error finding rules for remote group id %s in security group id %s: "
          (get_security_group_rules c (node_filter group remote port))
    create_missing svc remote port group rules
    create_current svc remote port groups

  unfoldable pub update_ports :
      Service → Str → List Str → List Str → List ServicePort → Exec State (Unit {0})
  unfolding remove_stale create_current
  update_ports svc remote removals current [] = pure tt
  update_ports svc remote removals current (port ∷ ports) = do
    remove_stale remote port removals
    create_current svc remote port current
    update_ports svc remote removals current ports

  abbrev found_group : Str → Exec State (Unit {0})
  found_group id =
      if id == [] then fail (failure "error occurred finding security group: %s") else pure tt

  -- updateSecurityGroup, with the node groups of the options
  unfoldable pub update_security_group : Service → List Node → List Str → Exec State (Unit {0})
  unfolding get_node_security_group_id update_ports
  update_security_group svc nodes original = do
    current ←
        wrapping "failed to find node-security-group for loadbalancer service %s/%s: "
          (get_node_security_group_id nodes)
    groups ← security_groups.list
    found_group (group_id (get_security_group_name svc) groups)
    has_ports c svc.ports
    update_ports svc (group_id (get_security_group_name svc) groups)
        (sets.difference original current) current svc.ports
    apply_node_security_group_id_for_lb c nodes (get_security_group_name svc)
