-- ===== src/Loadbalancer/Pools.antt =====
-- internal/edgecenter/loadbalancer_pools.go: the pool of each listener, and pools on their own.
pub mod Complete
use edgecenter_ccm.Prelude.{
  Str, Option, none, some, not, ◌||◌, List, [], ◌∷◌, codes, filter, any, ◌==◌, str_eq,
  if◌then◌else◌, Dict, insert, lookup, Err, failure, sentinel, not_found, multiple_results, Exec,
  pure, fail, deref, wrapping, quoting, ◌>>=◌, ◌>>◌,
}
use edgecenter_ccm.Cloud.Types.{
  ServicePort, Loadbalancer, Listener, Pool, PoolCreate, MemberCreate, HealthMonitorCreate,
  MonitorType, monitor_tcp, monitor_udp_connect, http,
}
use edgecenter_ccm.Cloud.Client.{Client}
use edgecenter_ccm.Loadbalancer.Names.{service_port_key, build_pool_name}
use edgecenter_ccm.Loadbalancer.Options.Config.{Config, ServiceOptions}
use edgecenter_ccm.Loadbalancer.Retry.{wait_active, run_lb_operation_with_retry}

unfoldable pub resolve_health_monitor_type : Str → MonitorType
resolve_health_monitor_type protocol =
    if protocol == codes "UDP"
    then monitor_udp_connect
    else if protocol == codes "TCP"
    then monitor_tcp
    else monitor_tcp

unfoldable pub prepare_health_monitor_opts : Config → ServicePort → HealthMonitorCreate
unfolding resolve_health_monitor_type
prepare_health_monitor_opts config sp = record {
  kind = resolve_health_monitor_type sp.protocol;
  delay = config.monitor_delay;
  timeout = config.monitor_timeout;
  max_retries = config.monitor_max_retries;
}

unfoldable pub build_pool_create_request :
    Config → Listener → Str → ServicePort → ServiceOptions → PoolCreate
unfolding prepare_health_monitor_opts
build_pool_create_request config ln lb_name sp opts = record {
  name = build_pool_name lb_name sp;
  protocol = if opts.keep_client_ip || not (opts.secret_id == []) then http else ln.protocol;
  algorithm = opts.lb_method;
  listener_id = ln.id;
  health_monitor =
      if opts.create_monitor then some (prepare_health_monitor_opts config sp) else none;
  persistence = opts.session_persistence;
}

module _ {IP : Type 0} where
  -- `for _, ref := range p.Listeners`, for one pool
  index_listeners : Pool IP → List Str → Dict (Pool IP) → Dict (Pool IP)
  index_listeners p [] m = m
  index_listeners p (ref ∷ refs) m =
      index_listeners p refs (if ref == [] then m else insert ref p m)

  -- `poolsByListenerID`
  unfoldable pub index_pools : List (Pool IP) → Dict (Pool IP) → Dict (Pool IP)
  unfolding index_listeners
  index_pools [] m = m
  index_pools (p ∷ pools) m = index_pools pools (index_listeners p p.listeners m)

  unfoldable pub unused_pools : List Str → List (Pool IP) → List (Pool IP)
  unused_pools used pools = filter (λ p. not (any (λ id. id == p.id) used)) pools

module _ (c : Client) where
  open c use {State, IP, loadbalancers}

  -- listPoolsByLoadBalancerID, which every caller asks for the details
  abbrev pub list_pools_by_load_balancer_id : Str → Exec State (List (Pool IP))
  list_pools_by_load_balancer_id lb_id = loadbalancers.pool_list lb_id none

  abbrev head_id : List Str → Option Str
  head_id [] = none
  head_id (id ∷ ids) = some id

  unfoldable pub create_pool : PoolCreate → Exec State (Option (Pool IP))
  create_pool opts = do
    pools ← wrapping "failed to create pool for listener %s: " (loadbalancers.pool_create opts)
    id ← deref (head_id pools)
    wrapping "cannot get loadbalancer pool with ID: %s. Error: " (loadbalancers.pool_get id)

  -- `if x == nil { return …, fmt.Errorf(text) }`
  abbrev pub required : {A : Type 0} → Err → Option A → Exec State A
  required e none = fail e
  required e (some a) = pure a

  module _ (config : Config) (lb : Loadbalancer IP) (opts : ServiceOptions) where
    -- The body of the loop over the ports: the pool that names the listener, or a new one.
    unfoldable pub ensure_pool : Dict (Pool IP) → Listener → ServicePort → Exec State (Pool IP)
    unfolding create_pool
    ensure_pool by_listener ln sp = elim (lookup ln.id by_listener) [
      | some pool ↦ pure pool
      | none ↦ do
        created ←
            quoting "error creating pool for listener %s: "
              (create_pool (build_pool_create_request config ln lb.name sp opts))
        quoting "LB not ACTIVE after creating pool for listener %s: " (wait_active c lb.id)
        deref created
    ]

    unfoldable pub ensure_pools :
        Dict (Pool IP)
        → Dict Listener
        → List ServicePort
        → Dict (Pool IP)
        → List Str
        → Exec State (Dict (Pool IP) × List Str)
    ensure_pools by_listener listeners [] result used = pure (result, used)
    ensure_pools by_listener listeners (sp ∷ ports) result used = do
      ln ←
          required (failure "listener for port key %s not found during pools phase")
            (lookup (service_port_key sp) listeners)
      pool ← ensure_pool by_listener ln sp
      ensure_pools by_listener listeners ports (insert (service_port_key sp) pool result)
          (pool.id ∷ used)

    unfoldable pub ensure_load_balancer_pools :
        List ServicePort → Dict Listener → Exec State (Dict (Pool IP) × List (Pool IP))
    unfolding index_pools
    ensure_load_balancer_pools ports listeners = do
      all_pools ← wrapping "failed listing pools for LB %s: " (list_pools_by_load_balancer_id lb.id)
      found ← ensure_pools (index_pools all_pools []) listeners ports [] []
      pure (found.0, unused_pools found.1 all_pools)

  unfoldable pub delete_pool : Str → Exec State (Unit {0})
  delete_pool id = do
    wrapping "failed to delete pool %s: " (loadbalancers.pool_delete id)
    exists ← wrapping "failed to check if pool %s exists: " (loadbalancers.pool_is_exist id)
    if exists then fail (failure "cannot delete lbpool with ID: %s") else pure tt

  unfoldable pub delete_pool_with_retry : Str → Str → Exec State (Unit {0})
  unfolding delete_pool
  delete_pool_with_retry lb_id id = run_lb_operation_with_retry c lb_id (delete_pool id)

  unfoldable pub create_pool_member : Str → MemberCreate IP → Exec State (Unit {0})
  create_pool_member pool_id opts =
      wrapping "failed to create pool member for pool %s: "
        (loadbalancers.member_create pool_id opts)

  -- lbp.Members, where lbp is followed
  unfoldable pub delete_pool_member : Str → Str → Exec State (Unit {0})
  delete_pool_member pool_id member_id = do
    wrapping "failed to delete loadbalancer pool member %s for pool %s: "
        (loadbalancers.member_delete pool_id member_id)
    got ←
        wrapping "cannot get loadbalancer pool with ID: %s. Error: "
          (loadbalancers.pool_get pool_id)
    pool ← deref got
    if any (λ m. m.id == member_id) pool.members
        then fail (failure "cannot delete loadbalancer pool member %s for pool %s")
        else pure tt

  single : {A : Type 0} → List A → Exec State A
  single [] = fail (sentinel not_found)
  single (x ∷ []) = pure x
  single (x ∷ y ∷ xs) = fail (sentinel multiple_results)

  unfoldable pub get_pool_by_listener_id : Str → Str → Exec State (Pool IP)
  unfolding single
  get_pool_by_listener_id lb_id listener_id = do
    pools ← loadbalancers.pool_list lb_id (some listener_id)
    single pools
