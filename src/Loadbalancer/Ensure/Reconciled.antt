-- ===== src/Loadbalancer/Ensure/Reconciled.antt =====
-- What EnsureLoadBalancer of internal/edgecenter/loadbalancer.go leaves behind when it succeeds.
use edgecenter_ccm.Prelude.{
  String, wrapping-eq-ok, Outcome, ap, ◌∙◌, Option, sym, pure-eq-ok, Str, List, [], ◌∷◌, Dict,
  Distinct, All, ◌≡◌, arith, ok, wrapping, Exec, >>=-eq-ok, fail, failure, ◌>>=◌,
}
use edgecenter_ccm.Cloud.Types.{Service, Node, ServicePort, Loadbalancer, Listener, Pool}
use edgecenter_ccm.Cloud.Client.{Client}
use edgecenter_ccm.Cloud.Wait.{IsBackoff}
use edgecenter_ccm.Loadbalancer.Names.{service_port_key}
use edgecenter_ccm.Loadbalancer.Options.Config.{Config, ServiceOptions}
use edgecenter_ccm.Loadbalancer.Options.Resolve.{resolve_service_options}
use edgecenter_ccm.Loadbalancer.Registry.{Served}
use edgecenter_ccm.Loadbalancer.Retry.{wait_active}
use edgecenter_ccm.Loadbalancer.Retry.Success.{SeenActive, wait_active-SeenActive}
use edgecenter_ccm.Loadbalancer.Listeners.{ensure_load_balancer_listeners}
use edgecenter_ccm.Loadbalancer.Listeners.Complete.{
  listener_id, ensure_load_balancer_listeners-AllServed,
}
use edgecenter_ccm.Loadbalancer.Pools.{ensure_load_balancer_pools}
use edgecenter_ccm.Loadbalancer.Pools.Complete.{id_of_pool, ensure_load_balancer_pools-AllServed}
use edgecenter_ccm.Loadbalancer.Members.{ip_string, reconcile_pool_members, node_ips}
use edgecenter_ccm.Loadbalancer.Members.Reconcile.{AllSettled, reconcile_pool_members-AllSettled}
use edgecenter_ccm.Loadbalancer.Ensure.{
  ensure_phase_loadbalancer, reconcile_loadbalancer, ensure_load_balancer,
  delete_obsolete_listeners_and_pools, public_address, manage_security_group,
}

module _ (c : Client) (looks : IsBackoff c.backoff) (waits : IsBackoff c.backoff_with_context) where
  open c use {State, IP, ip}

  -- A wait that ran from one state to another, and ended with the answer that the load balancer is
  -- ACTIVE.
  abbrev pub FoundActive : Str → State → State → Type 0
  FoundActive id s t = (wait_active c id s ≡ (ok tt, t)) × SeenActive c id t

  -- The phases, each from the state in which the one before ended, to the address of the ingress:
  -- every port has a listener and a pool, the listeners and pools left over are none of these, the
  -- pools are settled on the addresses of the nodes, the left over ones are deleted, and the security
  -- group is managed. The three waits find the load balancer ACTIVE.
  abbrev pub Reconciled :
      Config → Service → List Node → ServiceOptions → Loadbalancer IP → Str → State → State → Type 0
  Reconciled config svc nodes opts lb address s t =
      (listeners : Dict Listener) × (old_listeners : List Listener) × (pools : Dict (Pool IP))
      × (old_pools : List (Pool IP)) × (settled : Dict (Pool IP)) × (ips : List Str) × (a : Option
          IP)
      × (s1 s2 s3 s4 s5 s6 s7 s8 : State) × FoundActive lb.id s s1
      × (ensure_load_balancer_listeners c lb svc.ports opts s1
          ≡ (ok (listeners, old_listeners), s2))
      × All (λ sp. Served listener_id listeners old_listeners (service_port_key sp)) svc.ports
      × FoundActive lb.id s2 s3
      × (ensure_load_balancer_pools c config lb opts svc.ports listeners s3
          ≡ (ok (pools, old_pools), s4))
      × All (λ sp. Served id_of_pool pools old_pools (service_port_key sp)) svc.ports
      × FoundActive lb.id s4 s5
      × (reconcile_pool_members c lb.id svc.ports pools opts nodes s5 ≡ (ok settled, s6))
      × (node_ips c nodes s5 ≡ (ok ips, s5))
      × AllSettled c waits lb.id opts ips svc.ports settled
      × (delete_obsolete_listeners_and_pools c lb.id old_listeners old_pools s6 ≡ (ok tt, s7))
      × (public_address c svc lb opts s7 ≡ (ok a, s8))
      × (manage_security_group c svc nodes opts s8 ≡ (ok tt, t))
      × (address ≡ ip_string ip a)

  waited :
      (text : String) (id : Str) (s t : State)
      → wrapping text (wait_active c id) s ≡ (ok tt, t)
      → FoundActive id s t
  waited text id s t h =
      let e = wrapping-eq-ok text (wait_active c id) s h in
      (e, wait_active-SeenActive c looks id s t e)

  reconcile_loadbalancer-Reconciled :
      (config : Config) (svc : Service) (nodes : List Node) (opts : ServiceOptions)
      (lb : Loadbalancer IP) (address : Str) (s t : State)
      → Distinct service_port_key svc.ports
      → reconcile_loadbalancer c config svc nodes opts lb s ≡ (ok address, t)
      → Reconciled config svc nodes opts lb address s t
  unfolding reconcile_loadbalancer
  reconcile_loadbalancer-Reconciled config svc nodes opts lb address s t distinct h =
      let at_start : String =
        "timeout when waiting for loadbalancer to be ACTIVE, current provisioning status %s: " in
      let after_listeners : String =
        "timeout when waiting for loadbalancer to be ACTIVE after listeners phase, current provisioning status %s: " in
      let after_pools : String =
        "timeout when waiting for loadbalancer to be ACTIVE after pools phase, current provisioning status %s: " in
      let (_, s1, w1, h1) = >>=-eq-ok (wrapping at_start (wait_active c lb.id)) _ s h in
      let ((listeners, old_listeners), s2, e2, h2) =
        >>=-eq-ok (ensure_load_balancer_listeners c lb svc.ports opts) _ s1 h1 in
      let (_, s3, w3, h3) = >>=-eq-ok (wrapping after_listeners (wait_active c lb.id)) _ s2 h2 in
      let ((pools, old_pools), s4, e4, h4) =
        >>=-eq-ok (ensure_load_balancer_pools c config lb opts svc.ports listeners) _ s3 h3 in
      let (_, s5, w5, h5) = >>=-eq-ok (wrapping after_pools (wait_active c lb.id)) _ s4 h4 in
      let (settled, s6, e6, h6) =
        >>=-eq-ok (reconcile_pool_members c lb.id svc.ports pools opts nodes) _ s5 h5 in
      let (_, s7, e7, h7) =
        >>=-eq-ok (delete_obsolete_listeners_and_pools c lb.id old_listeners old_pools) _ s6 h6 in
      let (a, s8, e8, h8) = >>=-eq-ok (public_address c svc lb opts) _ s7 h7 in
      let (_, s9, e9, h9) = >>=-eq-ok (manage_security_group c svc nodes opts) _ s8 h8 in
      let (ips, known, all_settled) =
        reconcile_pool_members-AllSettled c waits lb.id svc.ports pools settled opts nodes s5 s6
          distinct e6 in
      (
        listeners,
        old_listeners,
        pools,
        old_pools,
        settled,
        ips,
        a,
        s1,
        s2,
        s3,
        s4,
        s5,
        s6,
        s7,
        s8,
        waited at_start lb.id s s1 w1,
        e2,
        ensure_load_balancer_listeners-AllServed c lb opts svc.ports listeners old_listeners s1 s2
            e2,
        waited after_listeners lb.id s2 s3 w3,
        e4,
        ensure_load_balancer_pools-AllServed c config lb opts svc.ports listeners pools old_pools s3
            s4 e4,
        waited after_pools lb.id s4 s5 w5,
        e6,
        known,
        all_settled,
        e7,
        e8,
        e9 ∙ ap (λ (x : Outcome Str × State). (ok tt, x.1)) h9,
        sym (pure-eq-ok h9),
      )

  pub ensure_load_balancer-Reconciled :
      (config : Config) (svc : Service) (nodes : List Node) (address : Str) (s t : State)
      → Distinct service_port_key svc.ports
      → ensure_load_balancer c config svc nodes s ≡ (ok address, t)
      → (opts : ServiceOptions) × (lb : Loadbalancer IP) × (s1 s2 : State)
        × (resolve_service_options c config svc nodes s ≡ (ok opts, s1))
        × (ensure_phase_loadbalancer c config svc opts s1 ≡ (ok lb, s2))
        × Reconciled config svc nodes opts lb address s2 t
  unfolding ensure_load_balancer
  ensure_load_balancer-Reconciled config svc [] address s t distinct h = ground arith
  ensure_load_balancer-Reconciled config svc (n ∷ nodes) address s t distinct h =
      by_ports svc.ports h
    where
      run : Exec State Str
      run = do
        opts ← resolve_service_options c config svc (n ∷ nodes)
        lb ← ensure_phase_loadbalancer c config svc opts
        reconcile_loadbalancer c config svc (n ∷ nodes) opts lb

      ran :
          run s ≡ (ok address, t)
          → (opts : ServiceOptions) × (lb : Loadbalancer IP) × (s1 s2 : State)
            × (resolve_service_options c config svc (n ∷ nodes) s ≡ (ok opts, s1))
            × (ensure_phase_loadbalancer c config svc opts s1 ≡ (ok lb, s2))
            × Reconciled config svc (n ∷ nodes) opts lb address s2 t
      ran r =
          let (opts, s1, e1, h1) =
            >>=-eq-ok (resolve_service_options c config svc (n ∷ nodes)) _ s r in
          let (lb, s2, e2, h2) = >>=-eq-ok (ensure_phase_loadbalancer c config svc opts) _ s1 h1 in
          (
            opts,
            lb,
            s1,
            s2,
            e1,
            e2,
            reconcile_loadbalancer-Reconciled config svc (n ∷ nodes) opts lb address s2 t distinct
                h2,
          )

      by_ports :
          (ports : List ServicePort)
          → (let checked : Exec State Str = elim ports [
            | [] ↦ fail (failure "no ports provided to edgecenter load balancer")
            | p ∷ ports ↦ run
          ] in
              checked s ≡ (ok address, t))
          → (opts : ServiceOptions) × (lb : Loadbalancer IP) × (s1 s2 : State)
            × (resolve_service_options c config svc (n ∷ nodes) s ≡ (ok opts, s1))
            × (ensure_phase_loadbalancer c config svc opts s1 ≡ (ok lb, s2))
            × Reconciled config svc (n ∷ nodes) opts lb address s2 t
      by_ports [] r = ground arith
      by_ports (p ∷ ports) r = ran r
