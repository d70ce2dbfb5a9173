-- ===== src/Loadbalancer/Names.antt =====
-- internal/edgecenter/loadbalancer_utils.go: names of resources, and the keys by which ports and
-- members are compared; the load balancer's name of loadbalancer.go.
pub mod Bounds
pub mod Injective
use edgecenter_ccm.Prelude.{
  ℕ, Str, Option, none, some, [], ◌∷◌, ◌++◌, ltb, length, take, codes, decimal, to_lower,
  trim_suffix, if◌then◌else◌,
}
use edgecenter_ccm.Cloud.Types.{ServicePort, Service, PoolMember, MemberCreate}
use edgecenter_ccm.Cloud.Client.{IpText}

abbrev pub max_name_length : ℕ
max_name_length = 63

unfoldable pub cut_string : Str → Str
cut_string original =
    if ltb max_name_length (length original) then take max_name_length original else original

-- "%s-%d" of the protocol in lower case and the port
abbrev pub protocol_port : ServicePort → Str
protocol_port sp = to_lower sp.protocol ++ (b'-' ∷ decimal sp.port)

abbrev pub named_key : Str → Str → Str
named_key [] rest = rest
named_key (c ∷ s) rest = (c ∷ s) ++ (b'-' ∷ rest)

unfoldable pub service_port_key : ServicePort → Str
service_port_key sp = named_key sp.name (protocol_port sp)

unfoldable pub build_listener_name : Str → ServicePort → Str
unfolding cut_string
build_listener_name lb_name sp =
    trim_suffix b'-' (cut_string (codes "listener_" ++ (service_port_key sp ++ (b'_' ∷ lb_name))))

unfoldable pub build_pool_name : Str → ServicePort → Str
unfolding cut_string
build_pool_name lb_name sp =
    trim_suffix b'-' (cut_string (codes "pool_" ++ (service_port_key sp ++ (b'_' ∷ lb_name))))

-- "svc_%s_%s_%s"
unfoldable pub get_load_balancer_name : Str → Service → Str
unfolding cut_string
get_load_balancer_name cluster_id svc =
    trim_suffix b'-'
      (cut_string (codes "svc_" ++ (cluster_id ++ (b'_' ∷ (svc.namespace ++ (b'_' ∷ svc.name))))))

-- "lb-sg-%s-%s-%s", of loadbalancer_securitygroups.go
unfoldable pub get_security_group_name : Service → Str
unfolding cut_string
get_security_group_name svc =
    trim_suffix b'-'
      (cut_string (codes "lb-sg-" ++ (svc.uid ++ (b'-' ∷ (svc.namespace ++ (b'-' ∷ svc.name))))))

module _ {IP : Type 0} (ip : IpText IP) where
  -- m.Address.String(), and "" for nil
  abbrev pub address_text : Option IP → Str
  address_text none = []
  address_text (some a) = ip.text a

  -- "%s:%d|%s"
  abbrev pub member_key : Option IP → ℕ → Str → Str
  member_key address port subnet =
      address_text address ++ (b':' ∷ (decimal port ++ (b'|' ∷ subnet)))

  unfoldable pub pool_member_key : PoolMember IP → Str
  pool_member_key m = member_key m.address m.protocol_port m.subnet_id

  unfoldable pub pool_member_create_key : MemberCreate IP → Str
  pool_member_create_key m = member_key m.address m.protocol_port m.subnet_id
