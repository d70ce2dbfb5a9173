-- ===== src/Tests/Helpers.antt =====
-- Helpers of the repository, and the update of the node groups, at small inputs.
use mathlib.Core.List.{Perm}
use edgecenter_ccm.SecurityGroups.Nodes.{apply_node_security_group_id_for_lb, apply_to_node}
use edgecenter_ccm.SecurityGroups.Rules.{get_security_group_rules, create_node_security_group_rules}
use edgecenter_ccm.Loadbalancer.Names.{get_security_group_name}
use edgecenter_ccm.SecurityGroups.Ensure.{group_id, has_ports}
use edgecenter_ccm.Loadbalancer.Options.Networks.{after_last_slash}
use edgecenter_ccm.Instances.Lookup.{get_node_instance_id, get_instance_by_node}
use edgecenter_ccm.Prelude.{
  ◌≡◌, refl, Str, not, [], ◌∷◌, codes, str_eq, nat_eq, filter, ok, trim_suffix,
}
use edgecenter_ccm.Tests.Memory.{memory}
use edgecenter_ccm.Tests.Checks.{guarded, member}
use edgecenter_ccm.Cloud.Types.{ServicePort}
use edgecenter_ccm.Loadbalancer.Names.{service_port_key}
use edgecenter_ccm.Loadbalancer.Names.Injective.{HasNoDash, service_port_key-injective}
use edgecenter_ccm.Prelude.{to_lower}
use edgecenter_ccm.Tests.Loadbalancers.{http_port, svc, nodes, world}
use edgecenter_ccm.Cloud.Client.{Client}
use edgecenter_ccm.Cloud.Types.{PoolMember}
use edgecenter_ccm.SecurityGroups.Ensure.{group_id}
use edgecenter_ccm.Loadbalancer.Names.{get_security_group_name}
use edgecenter_ccm.Loadbalancer.Members.Pop.{pop_member, is_member}
use edgecenter_ccm.Loadbalancer.Members.Pop.Rest.{pop_member-Perm}
use edgecenter_ccm.SecurityGroups.Update.{StringSets, update_security_group}

abbrev kept : PoolMember Str
kept = record member { protocol_port = 30081 }

pop_member-Perm_example :
    Perm (pop_member memory.ip (member ∷ kept ∷ member ∷ []) (codes "10.0.0.5") 30080) (
      filter
        (λ m. not (is_member memory.ip (codes "10.0.0.5") 30080 m))
        (member ∷ kept ∷ member ∷ []))
pop_member-Perm_example =
    pop_member-Perm memory.ip (member ∷ kept ∷ member ∷ []) (codes "10.0.0.5") 30080

abbrev as_lists : StringSets
as_lists = record { sorted = λ xs. xs; difference = λ xs ys. [] }

-- A cloud whose instances have the load balancer's group only.
abbrev grouped : Client
grouped = record guarded {
  instances = record guarded.instances {
    security_group_list = λ id w. guarded.security_groups.list w;
  };
}

updated : update_security_group grouped as_lists svc nodes [] world ≡ (ok tt, world)
unfolding update_security_group get_node_instance_id str_eq after_last_slash codes nat_eq group_id
    get_security_group_name trim_suffix has_ports get_security_group_rules
    create_node_security_group_rules apply_node_security_group_id_for_lb apply_to_node
    get_instance_by_node
updated = refl

-- The port for HTTP with its protocol in lower case.
abbrev lower_port : ServicePort
lower_port = record http_port { protocol = codes "tcp" }

no_dash : HasNoDash (to_lower http_port.protocol)
unfolding to_lower codes nat_eq
no_dash = refl

lower_no_dash : HasNoDash (to_lower lower_port.protocol)
unfolding to_lower codes nat_eq
lower_no_dash = refl

same_key : service_port_key http_port ≡ service_port_key lower_port
unfolding codes service_port_key to_lower
same_key = refl

service_port_key-injective_example :
    (http_port.name ≡ lower_port.name)
    × (to_lower http_port.protocol ≡ to_lower lower_port.protocol)
    × (http_port.port ≡ lower_port.port)
service_port_key-injective_example =
    service_port_key-injective http_port lower_port no_dash lower_no_dash same_key
