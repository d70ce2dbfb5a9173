-- ===== src/Loadbalancer/Listeners/Complete.antt =====
-- ensureLoadBalancerListeners of internal/edgecenter/loadbalancer_listeners.go serves every port.
use edgecenter_ccm.Prelude.{
  Str, List, [], ◌∷◌, Dict, lookup, insert, lookup-insert_self, All, All-map, subst, pure-eq-ok,
  ◌≡◌, arith, ok, wrapping, >>=-eq-ok,
}
use edgecenter_ccm.Cloud.Types.{ServicePort, Loadbalancer, Listener}
use edgecenter_ccm.Cloud.Client.{Client}
use edgecenter_ccm.Loadbalancer.Names.{service_port_key}
use edgecenter_ccm.Loadbalancer.Options.Config.{ServiceOptions}
use edgecenter_ccm.Loadbalancer.Listeners.{
  ensure_listener, ensure_listeners, ensure_load_balancer_listeners, unused_listeners,
}
use edgecenter_ccm.Loadbalancer.Registry.{
  Bound, Covered, Served, insert-Bound, insert-Covered, leftover-fresh,
}

abbrev pub listener_id : Listener → Str
listener_id ln = ln.id

module _ (c : Client) (lb : Loadbalancer c.IP) (opts : ServiceOptions) where
  module _ (existing : List Listener) where
    ensure_listeners-Bound :
        (ports : List ServicePort) (m result : Dict Listener) (used ids : List Str) (s t : c.State)
        (k : Str)
        → ensure_listeners c lb opts existing ports m used s ≡ (ok (result, ids), t)
        → Bound listener_id k m
        → Bound listener_id k result
    unfolding ensure_listeners
    ensure_listeners-Bound [] m result used ids s t k h (v, b) = (v, ground arith)
    ensure_listeners-Bound (sp ∷ ports) m result used ids s t k h b =
        let (ln, s1, _, h1) = >>=-eq-ok (ensure_listener c lb opts existing sp) _ s h in
        ensure_listeners-Bound ports _ result _ ids s1 t k h1
          (insert-Bound listener_id k (service_port_key sp) ln m b)

    ensure_listeners-AllBound :
        (ports : List ServicePort) (m result : Dict Listener) (used ids : List Str) (s t : c.State)
        → ensure_listeners c lb opts existing ports m used s ≡ (ok (result, ids), t)
        → All (λ sp. Bound listener_id (service_port_key sp) result) ports
    unfolding ensure_listeners
    ensure_listeners-AllBound [] m result used ids s t h = tt
    ensure_listeners-AllBound (sp ∷ ports) m result used ids s t h =
        let (ln, s1, _, h1) = >>=-eq-ok (ensure_listener c lb opts existing sp) _ s h in
        let m' = insert (service_port_key sp) ln m in
        (
          ensure_listeners-Bound ports m' result _ ids s1 t (service_port_key sp) h1
              (ln, lookup-insert_self (service_port_key sp) ln m),
          ensure_listeners-AllBound ports m' result _ ids s1 t h1,
        )

    ensure_listeners-Covered :
        (ports : List ServicePort) (m result : Dict Listener) (used ids : List Str) (s t : c.State)
        → ensure_listeners c lb opts existing ports m used s ≡ (ok (result, ids), t)
        → Covered listener_id m used
        → Covered listener_id result ids
    unfolding ensure_listeners
    ensure_listeners-Covered [] m result used ids s t h covered =
        λ k v e. ground (arith, covered k v)
    ensure_listeners-Covered (sp ∷ ports) m result used ids s t h covered =
        let (ln, s1, _, h1) = >>=-eq-ok (ensure_listener c lb opts existing sp) _ s h in
        ensure_listeners-Covered ports _ result _ ids s1 t h1
          (insert-Covered listener_id (service_port_key sp) ln m used covered)

    -- The two facts, for the listeners left over.
    ensure_listeners-AllServed :
        (ports : List ServicePort) (result : Dict Listener) (ids : List Str) (s t : c.State)
        → ensure_listeners c lb opts existing ports [] [] s ≡ (ok (result, ids), t)
        → All
            (λ sp. Served listener_id result (unused_listeners ids existing) (service_port_key sp))
            ports
    unfolding unused_listeners lookup
    ensure_listeners-AllServed ports result ids s t h =
        All-map
          (λ sp (ln, bound). (
            ln,
            bound,
            leftover-fresh listener_id ids existing ln.id (
                ensure_listeners-Covered ports [] result [] ids s t h (λ k v e. ground arith)
                  (service_port_key sp) ln bound),
          ))
          ports (ensure_listeners-AllBound ports [] result [] ids s t h)

  -- When the listeners phase returns no error, every port of the Service has a listener under its
  -- key, and none of the listeners that are reported as obsolete has the ID of such a listener.
  pub ensure_load_balancer_listeners-AllServed :
      (ports : List ServicePort) (result : Dict Listener) (obsolete : List Listener) (s t : c.State)
      → ensure_load_balancer_listeners c lb ports opts s ≡ (ok (result, obsolete), t)
      → All (λ sp. Served listener_id result obsolete (service_port_key sp)) ports
  unfolding ensure_load_balancer_listeners
  ensure_load_balancer_listeners-AllServed ports result obsolete s t h =
      let (existing, s1, _, h1) =
        >>=-eq-ok (wrapping "error getting LB %s listeners: " (c.loadbalancers.listener_list lb.id))
          _ s h in
      let ((m, ids), s2, h2, h3) =
        >>=-eq-ok (ensure_listeners c lb opts existing ports [] []) _ s1 h1 in
      subst
        (λ (x : Dict Listener × List Listener).
          All (λ sp. Served listener_id x.0 x.1 (service_port_key sp)) ports)
        (pure-eq-ok h3) (ensure_listeners-AllServed existing ports m ids s1 s2 h2)
