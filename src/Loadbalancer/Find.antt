-- ===== src/Loadbalancer/Find.antt =====
-- Looking a load balancer up: getLoadbalancerByName and GetLoadBalancer of
-- internal/edgecenter/loadbalancer.go.
pub mod Unique
use edgecenter_ccm.Prelude.{
  Str, Option, none, some, Bool, not, ◌&&◌, List, [], ◌∷◌, ◌⊎◌, inl, inr, filter, ◌==◌, str_eq,
  if◌then◌else◌, Err, sentinel, not_found, multiple_results, error_is, Exec, pure, fail, attempt,
  ◌>>=◌,
}
use edgecenter_ccm.Cloud.Types.{Service, Loadbalancer, deleted, pending_delete, status_eq}
use edgecenter_ccm.Cloud.Client.{Client}
use edgecenter_ccm.Loadbalancer.Names.{get_load_balancer_name}
use edgecenter_ccm.Loadbalancer.Options.Config.{Config}
use edgecenter_ccm.Loadbalancer.Members.{ip_string}

module _ {IP : Type 0} where
  -- A load balancer of the name that is not deleted and not being deleted.
  abbrev pub is_valid : Str → Loadbalancer IP → Bool
  is_valid name lb =
      lb.name == name
      && (not (lb.provisioning_status == deleted) && not (lb.provisioning_status == pending_delete))

module _ (c : Client) where
  open c use {State, IP, ip, loadbalancers, default_load_balancer_name}

  unfoldable pub by_legacy_name : List (Loadbalancer IP) → Exec State (Loadbalancer IP)
  by_legacy_name [] = fail (sentinel not_found)
  by_legacy_name (lb ∷ []) = pure lb
  by_legacy_name (lb ∷ lb2 ∷ lbs) = fail (sentinel multiple_results)

  -- The load balancers of the name, and those of the legacy name for when there are none.
  unfoldable pub by_name :
      List (Loadbalancer IP) → List (Loadbalancer IP) → Exec State (Loadbalancer IP)
  unfolding by_legacy_name
  by_name [] legacy = by_legacy_name legacy
  by_name (lb ∷ []) legacy = pure lb
  by_name (lb ∷ lb2 ∷ lbs) legacy = fail (sentinel multiple_results)

  unfoldable pub get_loadbalancer_by_name : Str → Str → Exec State (Loadbalancer IP)
  unfolding by_name
  get_loadbalancer_by_name name legacy_name = do
    list ← loadbalancers.list
    by_name (filter (is_valid name) list) (filter (is_valid legacy_name) list)

  -- The load balancer of a Service.
  unfoldable pub find_loadbalancer : Config → Service → Exec State (Loadbalancer IP)
  find_loadbalancer config svc =
      get_loadbalancer_by_name (get_load_balancer_name config.cluster_id svc)
        (default_load_balancer_name svc)

  ingress_of : Err ⊎ Loadbalancer IP → Exec State (Option Str)
  ingress_of (inl e) = if error_is e not_found then pure none else fail e
  ingress_of (inr lb) = pure (some (ip_string ip lb.vip_address))

  -- GetLoadBalancer: the ingress IP, if the load balancer exists.
  unfoldable pub get_load_balancer : Config → Service → Exec State (Option Str)
  unfolding ingress_of
  get_load_balancer config svc = do found ← attempt (find_loadbalancer config svc); ingress_of found
