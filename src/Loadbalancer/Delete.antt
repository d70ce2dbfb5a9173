-- ===== src/Loadbalancer/Delete.antt =====
-- EnsureLoadBalancerDeleted of internal/edgecenter/loadbalancer.go, with ensureListenerDeleted of
-- loadbalancer_listeners.go.
pub mod Gone
pub mod TornDown
use edgecenter_ccm.Prelude.{
  Str, Option, none, some, true, false, List, [], ◌∷◌, ◌⊎◌, inl, inr, codes, str_eq, if◌then◌else◌,
  Err, failure, not_found, error_is, Exec, pure, lift, fail, attempt, wrapping, quoting, ◌>>=◌,
  ◌>>◌,
}
use edgecenter_ccm.Cloud.Types.{Service, Loadbalancer, Listener, Pool, status_eq}
use edgecenter_ccm.Cloud.Client.{Client}
use edgecenter_ccm.Loadbalancer.Options.Annotations.{get_bool_from_service_annotation}
use edgecenter_ccm.Loadbalancer.Options.Config.{Config}
use edgecenter_ccm.Loadbalancer.Retry.{wait_deleted}
use edgecenter_ccm.Loadbalancer.Listeners.{
  get_listeners_by_load_balancer_id, delete_listener_with_retry,
}
use edgecenter_ccm.Loadbalancer.Pools.{delete_pool_with_retry, get_pool_by_listener_id}
use edgecenter_ccm.Loadbalancer.FloatingIps.{ensure_floating_ip}
use edgecenter_ccm.SecurityGroups.Ensure.{ensure_security_group_deleted}
use edgecenter_ccm.Loadbalancer.Find.{find_loadbalancer}

module _ (c : Client) where
  open c use {State, IP, ip, loadbalancers}

  unfoldable pub delete_load_balancer : Str → Exec State (Unit {0})
  delete_load_balancer id = do
    wrapping "failed to delete loadbalancer %s: " (loadbalancers.delete id)
    exists ← wrapping "failed to check if loadbalancer %s exists: " (loadbalancers.is_exist id)
    if exists then fail (failure "cannot delete loadbalancer with ID %s") else pure tt

  bound_pool : Err ⊎ Pool IP → Exec State (Option (Pool IP))
  bound_pool (inl e) =
      if error_is e not_found
      then pure none
      else quoting "error getting pool for obsolete listener %s: " (fail e)
  bound_pool (inr p) = pure (some p)

  delete_bound_pool : Str → Option (Pool IP) → Exec State (Unit {0})
  delete_bound_pool lb_id none = pure tt
  delete_bound_pool lb_id (some p) =
      quoting "error deleting obsolete pool %s for listener %s: "
        (delete_pool_with_retry c lb_id p.id)

  -- ensureListenerDeleted of loadbalancer_listeners.go
  unfoldable pub ensure_listener_deleted : Str → Listener → Exec State (Unit {0})
  unfolding bound_pool delete_bound_pool
  ensure_listener_deleted lb_id ln = do
    got ← attempt (get_pool_by_listener_id c lb_id ln.id)
    pool ← bound_pool got
    delete_bound_pool lb_id pool
    quoting "error deleting obsolete listener %s: " (delete_listener_with_retry c lb_id ln.id)

  unfoldable pub ensure_listeners_deleted : Str → List Listener → Exec State (Unit {0})
  ensure_listeners_deleted lb_id [] = pure tt
  ensure_listeners_deleted lb_id (ln ∷ listeners) = do
    ensure_listener_deleted lb_id ln
    ensure_listeners_deleted lb_id listeners

  -- Errors of the release are only logged, and addresses that do not parse are skipped.
  release : Str → Option IP → Exec State (Unit {0})
  release port_id none = pure tt
  release port_id (some a) = do attempt (ensure_floating_ip c true port_id (some a)); pure tt

  unfoldable pub release_floating_ips : Str → List Str → Exec State (Unit {0})
  unfolding release
  release_floating_ips port_id [] = pure tt
  release_floating_ips port_id (address ∷ rest) = do
    release port_id (ip.parse address)
    release_floating_ips port_id rest

  delete_security_group : Config → Service → Exec State (Unit {0})
  delete_security_group config svc =
      if config.manage_security_groups
      then quoting "failed to delete Security Group for loadbalancer service %s: "
          (ensure_security_group_deleted c config.use_octavia svc)
      else pure tt

  unfoldable pub delete_found_loadbalancer :
      Config → Service → Loadbalancer IP → Exec State (Unit {0})
  unfolding delete_security_group
  delete_found_loadbalancer config svc lb = do
    listeners ←
        quoting "error getting listeners for LB %s: " (get_listeners_by_load_balancer_id c lb.id)
    ensure_listeners_deleted lb.id listeners
    wrapping "failed to delete loadbalancer %s: " (delete_load_balancer lb.id)
    wrapping "failed to delete loadbalancer %s: " (wait_deleted c lb.id)
    delete_security_group config svc
    save ← wrapping "cant get internal annotation: " (
        lift (
          get_bool_from_service_annotation svc (codes "loadbalancer.edgecenter.com/save-floating")
            false))
    if save then pure tt else release_floating_ips lb.vip_port_id svc.ingress

  unfoldable pub delete_found : Config → Service → Err ⊎ Loadbalancer IP → Exec State (Unit {0})
  delete_found config svc (inl e) = if error_is e not_found then pure tt else fail e
  delete_found config svc (inr lb) = delete_found_loadbalancer config svc lb

  -- EnsureLoadBalancerDeleted
  unfoldable pub ensure_load_balancer_deleted : Config → Service → Exec State (Unit {0})
  unfolding delete_found
  ensure_load_balancer_deleted config svc = do
    found ← attempt (find_loadbalancer c config svc)
    delete_found config svc found
