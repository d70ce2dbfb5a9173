-- ===== src/Loadbalancer/Ensure/Settled.antt =====
-- EnsureLoadBalancer of internal/edgecenter/loadbalancer.go on a cloud that already has what the
-- Service asks for.
use edgecenter_ccm.Prelude.{
  Str, Option, List, [], ◌∷◌, ok, Exec, fail, failure, String, wrapping, wrapping-ok, >>=-ok, ◌>>=◌,
  All, Distinct, ◌≡◌, refl, ◌∙◌, ap, arith,
}
use edgecenter_ccm.Cloud.Types.{Service, ServicePort, Node, Loadbalancer}
use edgecenter_ccm.Cloud.Client.{Client}
use edgecenter_ccm.Loadbalancer.Options.Config.{Config, ServiceOptions}
use edgecenter_ccm.Loadbalancer.Options.Resolve.{resolve_service_options}
use edgecenter_ccm.Loadbalancer.Retry.{wait_active}
use edgecenter_ccm.Loadbalancer.Settled.{Entry, key_of, ports_of}
use edgecenter_ccm.Loadbalancer.Listeners.{ensure_load_balancer_listeners}
use edgecenter_ccm.Loadbalancer.Pools.{ensure_load_balancer_pools}
use edgecenter_ccm.Loadbalancer.Members.{node_ips, reconcile_pool_members, ip_string}
use edgecenter_ccm.Loadbalancer.Find.{find_loadbalancer}
use edgecenter_ccm.Loadbalancer.Ensure.{
  ensure_phase_loadbalancer, delete_pools, delete_listeners, delete_obsolete_listeners_and_pools,
  public_address, manage_security_group, reconcile_loadbalancer, ensure_load_balancer,
  get_or_create,
}
use edgecenter_ccm.Loadbalancer.Ensure.Phases.{HasMembers}
use edgecenter_ccm.Loadbalancer.Ensure.Found.{
  listeners_of, pools_of, HasListeners, HasPools, HasAddress, HasSecurityGroup,
  ensure_load_balancer_listeners-HasListeners, ensure_load_balancer_pools-HasPools,
  reconcile_pool_members-HasMembers, public_address-HasAddress,
  manage_security_group-HasSecurityGroup,
}
use edgecenter_ccm.SecurityGroups.Ensure.{has_ports}

module _ (c : Client) where
  open c use {State, IP, ip}

  -- The load balancer has what the Service asks for: each port its listener and its pool, with the
  -- members of the nodes, and nothing else, and the nodes the security group where it is managed;
  -- the API answers without a change of the state.
  abbrev pub IsSettled :
      Service → List Node → ServiceOptions → Loadbalancer IP → List (Entry IP) → State → Type 0
  IsSettled svc nodes opts lb entries s =
      (svc.ports ≡ ports_of entries)
      × Distinct key_of entries
      × (wait_active c lb.id s ≡ (ok tt, s))
      × HasListeners c lb opts entries s
      × HasPools c lb entries s
      × ((ips : List Str) × (node_ips c nodes s ≡ (ok ips, s))
          × All (HasMembers c opts ips) entries)
      × HasSecurityGroup c svc nodes opts s

  reconcile_loadbalancer-IsSettled :
      (config : Config) (svc : Service) (nodes : List Node) (opts : ServiceOptions)
      (lb : Loadbalancer IP) (entries : List (Entry IP)) (address : Option IP) (s : State)
      → IsSettled svc nodes opts lb entries s
      → has_ports c svc.ports s ≡ (ok tt, s)
      → HasAddress c lb opts address s
      → reconcile_loadbalancer c config svc nodes opts lb s ≡ (ok (ip_string ip address), s)
  unfolding reconcile_loadbalancer delete_obsolete_listeners_and_pools delete_pools delete_listeners
  reconcile_loadbalancer-IsSettled config svc nodes opts lb entries address s
        (ports, distinct, is_active, listeners, pools, (ips, known, members), grouped) given shown =
      let at_start : String =
        "timeout when waiting for loadbalancer to be ACTIVE, current provisioning status %s: " in
      let after_listeners : String =
        "timeout when waiting for loadbalancer to be ACTIVE after listeners phase, current provisioning status %s: " in
      let after_pools : String =
        "timeout when waiting for loadbalancer to be ACTIVE after pools phase, current provisioning status %s: " in
      let waiting = wait_active c lb.id in
      let ps = svc.ports in
      >>=-ok (wrapping at_start waiting) _ s (wrapping-ok at_start waiting s is_active)
      ∙ >>=-ok (ensure_load_balancer_listeners c lb ps opts) _ s (
          ap (λ (x : List ServicePort). ensure_load_balancer_listeners c lb x opts s) ports
          ∙ ensure_load_balancer_listeners-HasListeners c lb opts entries s listeners)
      ∙ >>=-ok (wrapping after_listeners waiting) _ s
          (wrapping-ok after_listeners waiting s is_active)
      ∙ >>=-ok (ensure_load_balancer_pools c config lb opts ps (listeners_of c entries)) _ s (
          ap
            (λ (x : List ServicePort).
              ensure_load_balancer_pools c config lb opts x (listeners_of c entries) s)
            ports
          ∙ ensure_load_balancer_pools-HasPools c config lb opts entries s distinct pools)
      ∙ >>=-ok (wrapping after_pools waiting) _ s (wrapping-ok after_pools waiting s is_active)
      ∙ >>=-ok (reconcile_pool_members c lb.id ps (pools_of c entries) opts nodes) _ s (
          ap
            (λ (x : List ServicePort).
              reconcile_pool_members c lb.id x (pools_of c entries) opts nodes s)
            ports
          ∙ reconcile_pool_members-HasMembers c lb opts nodes ips entries s distinct known members)
      ∙ >>=-ok (public_address c svc lb opts) _ s
          (public_address-HasAddress c svc lb opts address s shown)
      ∙ >>=-ok (manage_security_group c svc nodes opts) _ s
          (manage_security_group-HasSecurityGroup c svc nodes opts s given grouped)

  ensure_phase_loadbalancer-found :
      (config : Config) (svc : Service) (opts : ServiceOptions) (lb : Loadbalancer IP) (s : State)
      → find_loadbalancer c config svc s ≡ (ok lb, s)
      → ensure_phase_loadbalancer c config svc opts s ≡ (ok lb, s)
  unfolding ensure_phase_loadbalancer get_or_create
  ensure_phase_loadbalancer-found config svc opts lb s h = rw h refl

  -- Where the options of the Service are resolved, its load balancer is found, the wait for it to be
  -- ACTIVE ends without an error, the keys of the ports are distinct and their node ports are not 0,
  -- and all that the Service asks for is there and is read without a change of the state: the
  -- listeners, the pools and the members of every port and no others, the nodes' security group where
  -- it is managed, and the address (the load balancer's own where it is internal, and else the one
  -- floating IP of its port): then EnsureLoadBalancer returns that address and leaves the state as it
  -- is.
  pub ensure_load_balancer-IsSettled :
      (config : Config) (svc : Service) (node : Node) (nodes : List Node) (opts : ServiceOptions)
      (lb : Loadbalancer IP) (entry : Entry IP) (entries : List (Entry IP)) (address : Option IP)
      (s : State)
      → resolve_service_options c config svc (node ∷ nodes) s ≡ (ok opts, s)
      → find_loadbalancer c config svc s ≡ (ok lb, s)
      → IsSettled svc (node ∷ nodes) opts lb (entry ∷ entries) s
      → HasAddress c lb opts address s
      → ensure_load_balancer c config svc (node ∷ nodes) s ≡ (ok (ip_string ip address), s)
  unfolding ensure_load_balancer has_ports
  ensure_load_balancer-IsSettled config svc node nodes opts lb entry entries address s resolved
        found settled shown =
      by_ports svc.ports settled.0
    where
      run : Exec State Str
      run = do
        opts ← resolve_service_options c config svc (node ∷ nodes)
        lb ← ensure_phase_loadbalancer c config svc opts
        reconcile_loadbalancer c config svc (node ∷ nodes) opts lb

      given :
          (ps : List ServicePort) → ps ≡ ports_of (entry ∷ entries) → has_ports c ps s ≡ (ok tt, s)
      given [] h = ground arith
      given (p ∷ ps) h = refl

      by_ports :
          (ps : List ServicePort)
          → ps ≡ ports_of (entry ∷ entries)
          → (let chosen : Exec State Str = elim ps [
            | [] ↦ fail (failure "no ports provided to edgecenter load balancer")
            | p ∷ ports ↦ run
          ] in
              chosen s)
            ≡ (ok (ip_string ip address), s)
      by_ports [] h = ground arith
      by_ports (p ∷ ps) h =
          >>=-ok (resolve_service_options c config svc (node ∷ nodes)) _ s resolved
          ∙ >>=-ok (ensure_phase_loadbalancer c config svc opts) _ s
              (ensure_phase_loadbalancer-found config svc opts lb s found)
          ∙ reconcile_loadbalancer-IsSettled config svc (node ∷ nodes) opts lb (entry ∷ entries)
              address s settled (given svc.ports settled.0) shown
