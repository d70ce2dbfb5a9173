-- ===== src/Tests/Checks.antt =====
-- The theorems on comparisons and security groups at concrete data.
use edgecenter_ccm.Instances.Lookup.{get_instance_by_node}
use mathlib.Core.List.{Nodup, Perm, Nodup-cons, Pairwise, not-mem-nil}
use edgecenter_ccm.Prelude.{
  Str, some, true, false, [], ◌∷◌, ok, ◌≡◌, refl, ◌↔◌, codes, nat_eq, str_eq, map, trim_suffix,
}
use edgecenter_ccm.Cloud.Types.{status_eq, protocol_eq}
use edgecenter_ccm.Loadbalancer.Options.Networks.{after_last_slash}
use edgecenter_ccm.Loadbalancer.Names.{get_security_group_name}
use edgecenter_ccm.Cloud.Types.{PoolMember, MemberCreate}
use edgecenter_ccm.Loadbalancer.Members.{members_changed}
use edgecenter_ccm.Loadbalancer.Members.Changes.{
  place_of, place_wanted, members_changed-eq-false_iff,
}
use edgecenter_ccm.Util.IpNets.{equal}
use edgecenter_ccm.Util.IpNets.Sets.{equal-Perm_iff}
use edgecenter_ccm.SecurityGroups.Rules.{get_security_group_rules}
use edgecenter_ccm.SecurityGroups.Nodes.{apply_node_security_group_id_for_lb, apply_to_node}
use edgecenter_ccm.SecurityGroups.Ensure.{ensure_port_rules, ensure_security_group, group_id}
use edgecenter_ccm.SecurityGroups.Ensure.Admitted.{
  GroupOf, Admitted, ensure_security_group-Admitted,
}
use edgecenter_ccm.Cloud.Client.{Client}
use edgecenter_ccm.Cloud.Types.{SecurityGroup}
use edgecenter_ccm.Prelude.{All}
use edgecenter_ccm.Tests.Memory.{World, memory}
use edgecenter_ccm.Tests.Loadbalancers.{world, svc, nodes}
use edgecenter_ccm.Tests.Parts.{dual}

abbrev pub member : PoolMember Str
member = record {
  id = codes "m";
  address = some (codes "10.0.0.5");
  protocol_port = 30080;
  subnet_id = codes "subnet";
}

abbrev desired : MemberCreate Str
desired = record {
  address = some (codes "10.0.0.5");
  protocol_port = 30080;
  subnet_id = codes "subnet";
}

pub single-Nodup : {A : Type 0} (k : A) → Nodup (k ∷ [])
single-Nodup k = Nodup-cons.1 (not-mem-nil, Pairwise.nil)

members_changed-eq-false_iff_example :
    (members_changed memory.ip (member ∷ []) (desired ∷ []) ≡ false)
    ↔ Perm (map (place_wanted memory.ip) (desired ∷ [])) (map (place_of memory.ip) (member ∷ []))
unfolding codes nat_eq
members_changed-eq-false_iff_example =
    members_changed-eq-false_iff memory.ip (member ∷ []) (desired ∷ []) (refl, tt) (refl, tt)
      (single-Nodup (place_wanted memory.ip desired))

equal-Perm_iff_example :
    (equal (codes "10.0.0.0/8" ∷ []) (codes "10.0.0.0/8" ∷ []) ≡ true)
    ↔ Perm (codes "10.0.0.0/8" ∷ []) (codes "10.0.0.0/8" ∷ [])
equal-Perm_iff_example =
    equal-Perm_iff (codes "10.0.0.0/8" ∷ []) (codes "10.0.0.0/8" ∷ [])
      (single-Nodup (codes "10.0.0.0/8"))

-- A cloud with the security group of the Service, which has no rule yet, on the node's instance.
abbrev group : SecurityGroup
group = record { id = codes "sg"; name = codes "lb-sg-u1-default-web"; rules = [] }

abbrev pub guarded : Client
guarded = record memory {
  security_groups = record memory.security_groups {
    list = λ w. (ok (group ∷ []), w);
    get = λ id w. (ok group, w);
    rule_create = λ id req w. (ok tt, w);
  };
  instances = record memory.instances {
    get = λ id w. (ok (record dual { security_groups = codes "lb-sg-u1-default-web" ∷ [] }), w);
  };
  subnet_cidr = λ id w. (ok (codes "10.0.0.0/24"), w);
}

ensure_security_group-Admitted_example :
    (id : Str) × (v u : World) × GroupOf guarded (get_security_group_name svc) id world v
    × (ensure_port_rules guarded id (codes "subnet") svc.ports v ≡ (ok tt, u))
    × All (Admitted guarded id (codes "subnet")) svc.ports
    × (apply_node_security_group_id_for_lb guarded nodes (get_security_group_name svc) u
        ≡ (ok tt, world))
unfolding ensure_security_group codes str_eq nat_eq group_id get_security_group_name trim_suffix
    get_security_group_rules apply_node_security_group_id_for_lb apply_to_node get_instance_by_node
    after_last_slash
ensure_security_group-Admitted_example =
    ensure_security_group-Admitted guarded svc nodes (codes "subnet") world world refl
