-- ===== src/Loadbalancer/Names/Bounds.antt =====
-- The names that internal/edgecenter/loadbalancer_utils.go builds fit the API's limit.
use edgecenter_ccm.Prelude.{
  ℕ, Str, [], ◌∷◌, ◌++◌, ltb, length, take, codes, trim_suffix, length-take-le, ◌≤◌, arith,
  if◌then◌else◌,
}
use edgecenter_ccm.Cloud.Types.{ServicePort, Service}
use edgecenter_ccm.Loadbalancer.Names.{
  cut_string, build_listener_name, build_pool_name, get_load_balancer_name, get_security_group_name,
  service_port_key, max_name_length,
}

length-trim_suffix-le : (sep : ℕ) (s : Str) → length (trim_suffix sep s) ≤ length s
unfolding trim_suffix
length-trim_suffix-le sep [] = omega arith
length-trim_suffix-le sep (c ∷ []) = ground arith
length-trim_suffix-le sep (c ∷ d ∷ s) = omega (arith, length-trim_suffix-le sep (d ∷ s))

cut_le : (n : ℕ) (s : Str) → length (if ltb n (length s) then take n s else s) ≤ n
cut_le n s = ground (arith, length-take-le n s)

length-cut_string-le : (s : Str) → length (cut_string s) ≤ max_name_length
unfolding cut_string
length-cut_string-le s = cut_le 63 s

trimmed : (s : Str) → length (trim_suffix b'-' (cut_string s)) ≤ max_name_length
trimmed s = omega (arith, length-cut_string-le s, length-trim_suffix-le b'-' (cut_string s))

-- Every name that is built for a listener, a pool, a load balancer or a security group has at
-- most 63 bytes, whatever the Service and the cluster are called.
pub names-Bounded :
    (lb_name cluster_id : Str) (sp : ServicePort) (svc : Service)
    → (length (build_listener_name lb_name sp) ≤ max_name_length)
      × (length (build_pool_name lb_name sp) ≤ max_name_length)
      × (length (get_load_balancer_name cluster_id svc) ≤ max_name_length)
      × (length (get_security_group_name svc) ≤ max_name_length)
unfolding build_listener_name build_pool_name get_load_balancer_name get_security_group_name
names-Bounded lb_name cluster_id sp svc = (
  trimmed (codes "listener_" ++ (service_port_key sp ++ (b'_' ∷ lb_name))),
  trimmed (codes "pool_" ++ (service_port_key sp ++ (b'_' ∷ lb_name))),
  trimmed (codes "svc_" ++ (cluster_id ++ (b'_' ∷ (svc.namespace ++ (b'_' ∷ svc.name))))),
  trimmed (codes "lb-sg-" ++ (svc.uid ++ (b'-' ∷ (svc.namespace ++ (b'-' ∷ svc.name))))),
)
