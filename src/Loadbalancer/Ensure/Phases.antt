-- ===== src/Loadbalancer/Ensure/Phases.antt =====
-- The phases of EnsureLoadBalancer of internal/edgecenter/loadbalancer.go on a load balancer that has
-- all that its Service asks for.
use edgecenter_ccm.Prelude.{
  Str, some, false, List, [], ◌∷◌, Dict, lookup, insert, nat_eq, ==_of_neq, ok, All, ◌≡◌, ◌≢◌, refl,
  ◌∙◌, arith,
}
use edgecenter_ccm.Cloud.Types.{Listener, Pool, Loadbalancer}
use edgecenter_ccm.Cloud.Client.{Client}
use edgecenter_ccm.Loadbalancer.Options.Config.{Config, ServiceOptions}
use edgecenter_ccm.Loadbalancer.Settled.{Entry, key_of, ports_of, dict_of, insert_same, used_by}
use edgecenter_ccm.Loadbalancer.Listeners.{
  ensure_listeners, ensure_listener, find_listener_for_service_port, listener_changes, reload,
}
use edgecenter_ccm.Loadbalancer.Listeners.Settled.{ensure_listener-unchanged}
use edgecenter_ccm.Loadbalancer.Pools.{ensure_pool, ensure_pools}
use edgecenter_ccm.Loadbalancer.Members.{
  members_changed, desired_members, reconcile_pool, reconcile_pools, node_port_set,
}

module _ (c : Client) where
  open c use {State, IP, ip, loadbalancers}

  -- The port's listener is listed, needs no update, and is read as it was listed.
  abbrev pub HasListener : List Listener → ServiceOptions → State → Entry IP → Type 0
  HasListener existing opts s e =
      (find_listener_for_service_port existing e.port opts ≡ some e.listener)
      × ((listener_changes e.listener opts).1 ≡ false)
      × (loadbalancers.listener_get e.listener.id s ≡ (ok e.listener, s))

  ensure_listener-HasListener :
      (lb : Loadbalancer IP) (opts : ServiceOptions) (existing : List Listener) (e : Entry IP)
      (s : State)
      → HasListener existing opts s e
      → ensure_listener c lb opts existing e.port s ≡ (ok e.listener, s)
  unfolding reload
  ensure_listener-HasListener lb opts existing e s (found, same, got) =
      ensure_listener-unchanged c lb opts existing e.port e.listener s found same ∙ rw got refl

  pub ensure_listeners-HasListener :
      (lb : Loadbalancer IP) (opts : ServiceOptions) (existing : List Listener)
      (entries : List (Entry IP)) (result : Dict Listener) (used : List Str) (s : State)
      → All (HasListener existing opts s) entries
      → ensure_listeners c lb opts existing (ports_of entries) result used s ≡ (
        ok (
          dict_of (λ e. e.listener) entries result,
          used_by (λ (ln : Listener). ln.id) (λ e. e.listener) entries used,
        ),
        s,
      )
  unfolding ensure_listeners
  ensure_listeners-HasListener lb opts existing [] result used s has = refl
  ensure_listeners-HasListener lb opts existing (e ∷ entries) result used s (has, others) =
      rw (ensure_listener-HasListener lb opts existing e s has) (
        ensure_listeners-HasListener lb opts existing entries (insert (key_of e) e.listener result)
          (e.listener.id ∷ used) s others)

  -- The port's listener stands under its key, and the port's pool under the listener's ID.
  abbrev pub HasPool : Dict (Pool IP) → Dict Listener → Entry IP → Type 0
  HasPool by_listener listeners e =
      (lookup (key_of e) listeners ≡ some e.listener)
      × (lookup e.listener.id by_listener ≡ some e.pool)

  ensure_pool-HasPool :
      (config : Config) (lb : Loadbalancer IP) (opts : ServiceOptions)
      (by_listener : Dict (Pool IP)) (e : Entry IP) (s : State)
      → lookup e.listener.id by_listener ≡ some e.pool
      → ensure_pool c config lb opts by_listener e.listener e.port s ≡ (ok e.pool, s)
  unfolding ensure_pool
  ensure_pool-HasPool config lb opts by_listener e s h = ground arith

  pub ensure_pools-HasPool :
      (config : Config) (lb : Loadbalancer IP) (opts : ServiceOptions)
      (by_listener : Dict (Pool IP)) (listeners : Dict Listener) (entries : List (Entry IP))
      (result : Dict (Pool IP)) (used : List Str) (s : State)
      → All (HasPool by_listener listeners) entries
      → ensure_pools c config lb opts by_listener listeners (ports_of entries) result used s ≡ (
        ok (
          dict_of (λ e. e.pool) entries result,
          used_by (λ (p : Pool IP). p.id) (λ e. e.pool) entries used,
        ),
        s,
      )
  unfolding ensure_pools
  ensure_pools-HasPool config lb opts by_listener listeners [] result used s has = refl
  ensure_pools-HasPool config lb opts by_listener listeners (e ∷ entries) result used s
        ((listener, pool), others) =
      rw (listener, ensure_pool-HasPool config lb opts by_listener e s pool)
        (ensure_pools-HasPool config lb opts by_listener listeners entries
          (insert (key_of e) e.pool result) (e.pool.id ∷ used) s others)

  -- The port has a node port, and its pool has the members that are asked for.
  abbrev pub HasMembers : ServiceOptions → List Str → Entry IP → Type 0
  HasMembers opts ips e =
      (e.port.node_port ≢ 0)
      × (members_changed ip e.pool.members (desired_members c e.port opts ips) ≡ false)

  abbrev pub InPools : Dict (Pool IP) → Entry IP → Type 0
  InPools pools e = lookup (key_of e) pools ≡ some e.pool

  insert-InPools :
      (e : Entry IP) (entries : List (Entry IP)) (pools : Dict (Pool IP))
      → InPools pools e
      → All (InPools pools) entries
      → All (InPools (insert (key_of e) e.pool pools)) entries
  insert-InPools e [] pools own all = tt
  insert-InPools e (x ∷ entries) pools own (this, all) = (
    insert_same (λ (y : Entry IP). y.pool) (key_of e) (key_of x) e.pool pools own ∙ this,
    insert-InPools e entries pools own all,
  )

  reconcile_pool-HasMembers :
      (lb_id : Str) (opts : ServiceOptions) (ips : List Str) (e : Entry IP) (s : State)
      → HasMembers opts ips e
      → reconcile_pool c lb_id opts ips e.port e.pool s ≡ (ok e.pool, s)
  unfolding reconcile_pool
  reconcile_pool-HasMembers lb_id opts ips e s (port, same) = rw same refl

  pub reconcile_pools-HasMembers :
      (lb_id : Str) (opts : ServiceOptions) (ips : List Str) (entries : List (Entry IP))
      (pools : Dict (Pool IP)) (s : State)
      → All (InPools pools) entries
      → All (HasMembers opts ips) entries
      → reconcile_pools c lb_id opts ips (ports_of entries) pools s
        ≡ (ok (dict_of (λ e. e.pool) entries pools), s)
  unfolding reconcile_pools node_port_set
  reconcile_pools-HasMembers lb_id opts ips [] pools s there has = refl
  reconcile_pools-HasMembers lb_id opts ips (e ∷ entries) pools s (own, there) (has, others) =
      rw (own, ==_of_neq has.0, reconcile_pool-HasMembers lb_id opts ips e s has)
        (reconcile_pools-HasMembers lb_id opts ips entries (insert (key_of e) e.pool pools) s
          (insert-InPools e entries pools own there) others)
