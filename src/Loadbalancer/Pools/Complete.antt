-- ===== src/Loadbalancer/Pools/Complete.antt =====
-- ensureLoadBalancerPools of internal/edgecenter/loadbalancer_pools.go serves every port.
use edgecenter_ccm.Prelude.{
  Str, List, [], ◌∷◌, Dict, lookup, insert, lookup-insert_self, All, All-map, subst, pure-eq-ok,
  ◌≡◌, arith, ok, failure, none, wrapping, >>=-eq-ok,
}
use edgecenter_ccm.Cloud.Types.{ServicePort, Loadbalancer, Listener, Pool}
use edgecenter_ccm.Cloud.Client.{Client}
use edgecenter_ccm.Loadbalancer.Names.{service_port_key}
use edgecenter_ccm.Loadbalancer.Options.Config.{Config, ServiceOptions}
use edgecenter_ccm.Loadbalancer.Pools.{
  ensure_pool, ensure_pools, ensure_load_balancer_pools, unused_pools, required, index_pools,
}
use edgecenter_ccm.Loadbalancer.Registry.{
  Bound, Covered, Served, insert-Bound, insert-Covered, leftover-fresh,
}

abbrev pub id_of_pool : {IP : Type 0} → Pool IP → Str
id_of_pool p = p.id

module _ (c : Client) (config : Config) (lb : Loadbalancer c.IP) (opts : ServiceOptions) where
  module _ (by_listener : Dict (Pool c.IP)) (listeners : Dict Listener) where
    -- One round: a pool is bound to the port's key, and the loop goes on.
    ensure_pools_round :
        (sp : ServicePort) (ports : List ServicePort) (m result : Dict (Pool c.IP))
        (used ids : List Str) (s t : c.State)
        → ensure_pools c config lb opts by_listener listeners (sp ∷ ports) m used s
          ≡ (ok (result, ids), t)
        → (p : Pool c.IP) × (u : c.State) × (ensure_pools c config lb opts by_listener listeners
              ports
              (insert (service_port_key sp) p m)
              (p.id ∷ used)
              u
            ≡ (ok (result, ids), t))
    unfolding ensure_pools
    ensure_pools_round sp ports m result used ids s t h =
        let (ln, s1, _, h1) =
          >>=-eq-ok
            (required c (failure "listener for port key %s not found during pools phase")
              (lookup (service_port_key sp) listeners))
            _ s h in
        let (p, s2, _, h2) = >>=-eq-ok (ensure_pool c config lb opts by_listener ln sp) _ s1 h1 in
        (p, s2, h2)

    ensure_pools-Bound :
        (ports : List ServicePort) (m result : Dict (Pool c.IP)) (used ids : List Str)
        (s t : c.State) (k : Str)
        → ensure_pools c config lb opts by_listener listeners ports m used s ≡ (ok (result, ids), t)
        → Bound id_of_pool k m
        → Bound id_of_pool k result
    unfolding ensure_pools
    ensure_pools-Bound [] m result used ids s t k h (v, b) = (v, ground arith)
    ensure_pools-Bound (sp ∷ ports) m result used ids s t k h b =
        let (p, u, next) = ensure_pools_round sp ports m result used ids s t h in
        ensure_pools-Bound ports _ result _ ids u t k next
          (insert-Bound id_of_pool k (service_port_key sp) p m b)

    ensure_pools-AllBound :
        (ports : List ServicePort) (m result : Dict (Pool c.IP)) (used ids : List Str)
        (s t : c.State)
        → ensure_pools c config lb opts by_listener listeners ports m used s ≡ (ok (result, ids), t)
        → All (λ sp. Bound id_of_pool (service_port_key sp) result) ports
    ensure_pools-AllBound [] m result used ids s t h = tt
    ensure_pools-AllBound (sp ∷ ports) m result used ids s t h =
        let (p, u, next) = ensure_pools_round sp ports m result used ids s t h in
        let m' = insert (service_port_key sp) p m in
        (
          ensure_pools-Bound ports m' result _ ids u t (service_port_key sp) next
              (p, lookup-insert_self (service_port_key sp) p m),
          ensure_pools-AllBound ports m' result _ ids u t next,
        )

    ensure_pools-Covered :
        (ports : List ServicePort) (m result : Dict (Pool c.IP)) (used ids : List Str)
        (s t : c.State)
        → ensure_pools c config lb opts by_listener listeners ports m used s ≡ (ok (result, ids), t)
        → Covered id_of_pool m used
        → Covered id_of_pool result ids
    unfolding ensure_pools
    ensure_pools-Covered [] m result used ids s t h covered = λ k v e. ground (arith, covered k v)
    ensure_pools-Covered (sp ∷ ports) m result used ids s t h covered =
        let (p, u, next) = ensure_pools_round sp ports m result used ids s t h in
        ensure_pools-Covered ports _ result _ ids u t next
          (insert-Covered id_of_pool (service_port_key sp) p m used covered)

    ensure_pools-AllServed :
        (pools : List (Pool c.IP)) (ports : List ServicePort) (result : Dict (Pool c.IP))
        (ids : List Str) (s t : c.State)
        → ensure_pools c config lb opts by_listener listeners ports [] [] s ≡ (ok (result, ids), t)
        → All (λ sp. Served id_of_pool result (unused_pools ids pools) (service_port_key sp)) ports
    unfolding unused_pools lookup
    ensure_pools-AllServed pools ports result ids s t h =
        All-map
          (λ sp (p, bound). (
            p,
            bound,
            leftover-fresh id_of_pool ids pools p.id (
                ensure_pools-Covered ports [] result [] ids s t h (λ k v e. ground arith)
                  (service_port_key sp) p bound),
          ))
          ports (ensure_pools-AllBound ports [] result [] ids s t h)

  -- When the pools phase returns no error, every port of the Service has a pool under its key, and
  -- none of the pools that are reported as obsolete has the ID of such a pool.
  pub ensure_load_balancer_pools-AllServed :
      (ports : List ServicePort) (listeners : Dict Listener) (result : Dict (Pool c.IP))
      (obsolete : List (Pool c.IP)) (s t : c.State)
      → ensure_load_balancer_pools c config lb opts ports listeners s ≡ (ok (result, obsolete), t)
      → All (λ sp. Served id_of_pool result obsolete (service_port_key sp)) ports
  unfolding ensure_load_balancer_pools
  ensure_load_balancer_pools-AllServed ports listeners result obsolete s t h =
      let (pools, s1, _, h1) =
        >>=-eq-ok
          (wrapping "failed listing pools for LB %s: " (c.loadbalancers.pool_list lb.id none)) _ s
          h in
      let by_listener = index_pools pools [] in
      let ((m, ids), s2, h2, h3) =
        >>=-eq-ok (ensure_pools c config lb opts by_listener listeners ports [] []) _ s1 h1 in
      subst
        (λ (x : Dict (Pool c.IP) × List (Pool c.IP)).
          All (λ sp. Served id_of_pool x.0 x.1 (service_port_key sp)) ports)
        (pure-eq-ok h3) (ensure_pools-AllServed by_listener listeners pools ports m ids s1 s2 h2)
