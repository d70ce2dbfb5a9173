-- ===== src/Loadbalancer/Ensure.antt =====
-- EnsureLoadBalancer and UpdateLoadBalancer of internal/edgecenter/loadbalancer.go, with the cleanup
-- of obsolete listeners and pools of loadbalancer_listeners.go.
pub mod Reconciled
pub mod Phases
pub mod Found
pub mod Settled
use edgecenter_ccm.Prelude.{
  Str, Option, none, some, List, [], ◌∷◌, ◌⊎◌, inl, inr, str_eq, if◌then◌else◌, Err, failure,
  not_found, error_is, Exec, pure, fail, deref, attempt, wrapping, quoting, ◌>>=◌, ◌>>◌,
}
use edgecenter_ccm.Cloud.Types.{Service, Node, Loadbalancer, Listener, Pool, status_eq}
use edgecenter_ccm.Cloud.Client.{Client}
use edgecenter_ccm.Loadbalancer.Names.{get_load_balancer_name}
use edgecenter_ccm.Loadbalancer.Options.Config.{Config, ServiceOptions}
use edgecenter_ccm.Loadbalancer.Options.Resolve.{resolve_service_options}
use edgecenter_ccm.Loadbalancer.Retry.{wait_active}
use edgecenter_ccm.Loadbalancer.Listeners.{
  ensure_load_balancer_listeners, delete_listener_with_retry,
}
use edgecenter_ccm.Loadbalancer.Pools.{ensure_load_balancer_pools, delete_pool_with_retry}
use edgecenter_ccm.Loadbalancer.Members.{reconcile_pool_members, ip_string}
use edgecenter_ccm.Loadbalancer.FloatingIps.{ensure_service_floating_ip}
use edgecenter_ccm.SecurityGroups.Ensure.{ensure_security_group}
use edgecenter_ccm.Loadbalancer.Find.{find_loadbalancer}

module _ (c : Client) where
  open c use {State, IP, ip, loadbalancers}

  abbrev head_id : List Str → Option Str
  head_id [] = none
  head_id (id ∷ ids) = some id

  unfoldable pub create_load_balancer : Str → ServiceOptions → Exec State (Loadbalancer IP)
  create_load_balancer name opts = do
    created ← wrapping "failed to create loadbalancer: " (
        loadbalancers.create (record {
          name = name;
          flavor = opts.flavor_id;
          vip_network_id = opts.network_id;
          vip_subnet_id = opts.subnet_id;
        }))
    id ← deref (head_id created)
    wrapping "cannot get loadbalancer with ID: %s. Error: " (loadbalancers.get id)

  -- The first phase: only a load balancer that is not found is created.
  unfoldable pub get_or_create :
      Config → Service → ServiceOptions → Err ⊎ Loadbalancer IP → Exec State (Loadbalancer IP)
  get_or_create config svc opts (inr lb) = pure lb
  get_or_create config svc opts (inl e) =
      if error_is e not_found
      then quoting "error creating loadbalancer %s: "
          (create_load_balancer (get_load_balancer_name config.cluster_id svc) opts)
      else wrapping "error getting loadbalancer for Service %s: " (fail e)

  unfoldable pub ensure_phase_loadbalancer :
      Config → Service → ServiceOptions → Exec State (Loadbalancer IP)
  unfolding get_or_create
  ensure_phase_loadbalancer config svc opts = do
    found ← attempt (find_loadbalancer c config svc)
    get_or_create config svc opts found

  unfoldable pub delete_pools : Str → List (Pool IP) → Exec State (Unit {0})
  delete_pools lb_id [] = pure tt
  delete_pools lb_id (p ∷ pools) = do
    wrapping "failed to delete obsolete pool %s: " (delete_pool_with_retry c lb_id p.id)
    delete_pools lb_id pools

  unfoldable pub delete_listeners : Str → List Listener → Exec State (Unit {0})
  delete_listeners lb_id [] = pure tt
  delete_listeners lb_id (ln ∷ listeners) = do
    wrapping "failed to delete obsolete listener %s: " (delete_listener_with_retry c lb_id ln.id)
    delete_listeners lb_id listeners

  -- Pools go before listeners.
  unfoldable pub delete_obsolete_listeners_and_pools :
      Str → List Listener → List (Pool IP) → Exec State (Unit {0})
  unfolding delete_pools delete_listeners
  delete_obsolete_listeners_and_pools lb_id listeners pools = do
    delete_pools lb_id pools
    delete_listeners lb_id listeners

  unfoldable pub public_address :
      Service → Loadbalancer IP → ServiceOptions → Exec State (Option IP)
  public_address svc lb opts =
      if opts.internal then pure lb.vip_address else ensure_service_floating_ip c svc lb

  unfoldable pub manage_security_group :
      Service → List Node → ServiceOptions → Exec State (Unit {0})
  manage_security_group svc nodes opts =
      if opts.manage_security_groups
      then quoting "failed when reconciling security groups for LB service %v/%v: "
          (ensure_security_group c svc nodes opts.subnet_id)
      else pure tt

  -- The phases after the load balancer is there, up to its ingress address.
  unfoldable pub reconcile_loadbalancer :
      Config → Service → List Node → ServiceOptions → Loadbalancer IP → Exec State Str
  unfolding public_address manage_security_group
  reconcile_loadbalancer config svc nodes opts lb = do
    wrapping "timeout when waiting for loadbalancer to be ACTIVE, current provisioning status %s: "
        (wait_active c lb.id)
    listeners ← ensure_load_balancer_listeners c lb svc.ports opts
    wrapping
        "timeout when waiting for loadbalancer to be ACTIVE after listeners phase, current provisioning status %s: "
        (wait_active c lb.id)
    pools ← ensure_load_balancer_pools c config lb opts svc.ports listeners.0
    wrapping
        "timeout when waiting for loadbalancer to be ACTIVE after pools phase, current provisioning status %s: "
        (wait_active c lb.id)
    reconcile_pool_members c lb.id svc.ports pools.0 opts nodes
    delete_obsolete_listeners_and_pools lb.id listeners.1 pools.1
    address ← public_address svc lb opts
    manage_security_group svc nodes opts
    pure (ip_string ip address)

  -- EnsureLoadBalancer: the IP of the ingress in the returned status.
  unfoldable pub ensure_load_balancer : Config → Service → List Node → Exec State Str
  ensure_load_balancer config svc [] =
      fail (failure "there are no available nodes for LoadBalancer service %s")
  ensure_load_balancer config svc (node ∷ nodes) =
      let run : Exec State Str = (do
        opts ← resolve_service_options c config svc (node ∷ nodes)
        lb ← ensure_phase_loadbalancer config svc opts
        reconcile_loadbalancer config svc (node ∷ nodes) opts lb) in
      elim svc.ports [
        | [] ↦ fail (failure "no ports provided to edgecenter load balancer")
        | p ∷ ports ↦ run
      ]

  -- UpdateLoadBalancer
  unfoldable pub update_load_balancer : Config → Service → List Node → Exec State (Unit {0})
  update_load_balancer config svc nodes = do ensure_load_balancer config svc nodes; pure tt
