-- ===== src/Loadbalancer/Ensure/Found.antt =====
-- What the phases of EnsureLoadBalancer of internal/edgecenter/loadbalancer.go do where each finds what
-- it looks for: the listeners, the pools, the members, the address and the security group.
use edgecenter_ccm.Prelude.{
  Str, Option, none, some, true, List, [], ◌∷◌, Dict, lookup, ok, All, Distinct, ◌⊎◌, inl, inr,
  false, ◌≡◌, refl,
}
use edgecenter_ccm.Cloud.Types.{Service, Node, Loadbalancer, Listener, Pool}
use edgecenter_ccm.Cloud.Client.{Client}
use edgecenter_ccm.Loadbalancer.Options.Config.{Config, ServiceOptions}
use edgecenter_ccm.Loadbalancer.Settled.{
  Entry, key_of, ports_of, dict_of, dict_of-found, is_used, leftover_none,
}
use edgecenter_ccm.Loadbalancer.Listeners.{ensure_load_balancer_listeners, unused_listeners}
use edgecenter_ccm.Loadbalancer.Pools.{ensure_load_balancer_pools, index_pools, unused_pools}
use edgecenter_ccm.Loadbalancer.Members.{node_ips, reconcile_pool_members}
use edgecenter_ccm.Loadbalancer.Ensure.{public_address, manage_security_group}
use edgecenter_ccm.Loadbalancer.Ensure.Phases.{
  HasListener, HasPool, HasMembers, ensure_listeners-HasListener, ensure_pools-HasPool,
  reconcile_pools-HasMembers,
}
use edgecenter_ccm.Cloud.Types.{FloatingIp}
use edgecenter_ccm.Loadbalancer.FloatingIps.{
  ensure_service_floating_ip, ensure_floating_ip, on_port, by_count,
}
use edgecenter_ccm.SecurityGroups.Ensure.{has_ports}
use edgecenter_ccm.SecurityGroups.Ensure.Settled.{IsGrouped, ensure_security_group-IsGrouped}

module _ (c : Client) where
  open c use {State, IP, ip, loadbalancers, floatingips}

  abbrev pub listeners_of : List (Entry IP) → Dict Listener
  listeners_of entries = dict_of (λ e. e.listener) entries []

  abbrev pub pools_of : List (Entry IP) → Dict (Pool IP)
  pools_of entries = dict_of (λ e. e.pool) entries []

  -- Every listed listener is one of the ports' listeners, and each of these is up to date.
  abbrev pub HasListeners : Loadbalancer IP → ServiceOptions → List (Entry IP) → State → Type 0
  HasListeners lb opts entries s =
      (existing : List Listener) × (loadbalancers.listener_list lb.id s ≡ (ok existing, s))
      × All (HasListener c existing opts s) entries
      × All
          (λ ln. is_used (λ (x : Listener). x.id) (λ (e : Entry IP). e.listener) entries ln ≡ true)
          existing

  -- Every listed pool is one of the ports' pools, and each of these serves its port's listener.
  abbrev pub HasPools : Loadbalancer IP → List (Entry IP) → State → Type 0
  HasPools lb entries s =
      (pools : List (Pool IP)) × (loadbalancers.pool_list lb.id none s ≡ (ok pools, s))
      × All (λ e. lookup e.listener.id (index_pools pools []) ≡ some e.pool) entries
      × All (λ p. is_used (λ (x : Pool IP). x.id) (λ (e : Entry IP). e.pool) entries p ≡ true) pools

  pub ensure_load_balancer_listeners-HasListeners :
      (lb : Loadbalancer IP) (opts : ServiceOptions) (entries : List (Entry IP)) (s : State)
      → HasListeners lb opts entries s
      → ensure_load_balancer_listeners c lb (ports_of entries) opts s
        ≡ (ok (listeners_of entries, []), s)
  unfolding ensure_load_balancer_listeners unused_listeners
  ensure_load_balancer_listeners-HasListeners lb opts entries s (existing, listed, has, used) =
      rw
        (
          listed,
          ensure_listeners-HasListener c lb opts existing entries [] [] s has,
          leftover_none (λ (x : Listener). x.id) (λ (e : Entry IP). e.listener) entries existing
              used,
        )
        refl

  with_listener :
      (by_listener : Dict (Pool IP)) (listeners : Dict Listener) (entries : List (Entry IP))
      → All (λ e. lookup (key_of e) listeners ≡ some e.listener) entries
      → All (λ e. lookup e.listener.id by_listener ≡ some e.pool) entries
      → All (HasPool c by_listener listeners) entries
  with_listener by_listener listeners [] h k = tt
  with_listener by_listener listeners (e ∷ entries) (h, hs) (k, ks) =
      ((h, k), with_listener by_listener listeners entries hs ks)

  pub ensure_load_balancer_pools-HasPools :
      (config : Config) (lb : Loadbalancer IP) (opts : ServiceOptions) (entries : List (Entry IP))
      (s : State)
      → Distinct key_of entries
      → HasPools lb entries s
      → ensure_load_balancer_pools c config lb opts (ports_of entries) (listeners_of entries) s
        ≡ (ok (pools_of entries, []), s)
  unfolding ensure_load_balancer_pools unused_pools
  ensure_load_balancer_pools-HasPools config lb opts entries s distinct (pools, listed, has, used) =
      let by_listener = index_pools pools [] in
      let listeners = listeners_of entries in
      let all : All (HasPool c by_listener listeners) entries =
        with_listener by_listener listeners entries
          (dict_of-found (λ (e : Entry IP). e.listener) entries [] distinct) has in
      rw
        (
          listed,
          ensure_pools-HasPool c config lb opts by_listener listeners entries [] [] s all,
          leftover_none (λ (x : Pool IP). x.id) (λ (e : Entry IP). e.pool) entries pools used,
        )
        refl

  pub reconcile_pool_members-HasMembers :
      (lb : Loadbalancer IP) (opts : ServiceOptions) (nodes : List Node) (ips : List Str)
      (entries : List (Entry IP)) (s : State)
      → Distinct key_of entries
      → node_ips c nodes s ≡ (ok ips, s)
      → All (HasMembers c opts ips) entries
      → reconcile_pool_members c lb.id (ports_of entries) (pools_of entries) opts nodes s
        ≡ (ok (dict_of (λ e. e.pool) entries (pools_of entries)), s)
  unfolding reconcile_pool_members
  reconcile_pool_members-HasMembers lb opts nodes ips entries s distinct known has =
      rw
        (
          known,
          reconcile_pools-HasMembers c lb.id opts ips entries (pools_of entries) s
              (dict_of-found (λ (e : Entry IP). e.pool) entries [] distinct) has,
        )
        refl

  -- The load balancer serves the Service at this address: its own address where it is internal, and
  -- else the one floating IP of its port.
  abbrev pub HasAddress : Loadbalancer IP → ServiceOptions → Option IP → State → Type 0
  HasAddress lb opts address s =
      ((opts.internal ≡ true) × (address ≡ lb.vip_address))
      ⊎ ((opts.internal ≡ false)
          × ((f : FloatingIp) × (floatingips.list_by_port lb.vip_port_id s ≡ (ok (f ∷ []), s))
              × (address ≡ ip.parse f.address)))

  pub public_address-HasAddress :
      (svc : Service) (lb : Loadbalancer IP) (opts : ServiceOptions) (address : Option IP)
      (s : State)
      → HasAddress lb opts address s
      → public_address c svc lb opts s ≡ (ok address, s)
  unfolding public_address ensure_service_floating_ip ensure_floating_ip on_port by_count
  public_address-HasAddress svc lb opts address s (inl (internal, e)) = rw (internal, e) refl
  public_address-HasAddress svc lb opts address s (inr (internal, (f, listed, e))) =
      rw (internal, listed, e) refl

  -- The nodes have the Service's security group with its rules, where it is managed.
  abbrev pub HasSecurityGroup : Service → List Node → ServiceOptions → State → Type 0
  HasSecurityGroup svc nodes opts s =
      (opts.manage_security_groups ≡ false)
      ⊎ ((opts.manage_security_groups ≡ true) × IsGrouped c svc nodes opts.subnet_id s)

  pub manage_security_group-HasSecurityGroup :
      (svc : Service) (nodes : List Node) (opts : ServiceOptions) (s : State)
      → has_ports c svc.ports s ≡ (ok tt, s)
      → HasSecurityGroup svc nodes opts s
      → manage_security_group c svc nodes opts s ≡ (ok tt, s)
  unfolding manage_security_group
  manage_security_group-HasSecurityGroup svc nodes opts s ports (inl e) = rw e refl
  manage_security_group-HasSecurityGroup svc nodes opts s ports (inr (e, grouped)) =
      rw (e, ensure_security_group-IsGrouped c svc nodes opts.subnet_id s ports grouped) refl
