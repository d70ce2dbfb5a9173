-- ===== src/Loadbalancer/Members/Reconcile.antt =====
-- What reconcilePoolMembers of internal/edgecenter/loadbalancer_pools.go leaves in the pools.
use mathlib.Core.List.{Mem, Subset, mem-cons, mem-cons_self}
use mathlib.Core.Logic.Or
use edgecenter_ccm.Prelude.{
  map, length, subst, pure-eq-ok, Subset_of_lacks, Str, some, Bool, true, false, List, [], ◌∷◌,
  Dict, insert, failure, Distinct, lookup, lookup-insert, lookup-insert_self, str_eq, nat_eq,
  if◌then◌else◌, ◌≡◌, refl, ◌∙◌, arith, ok, pure, lift, quoting, >>=-eq-ok, wrapping-eq-ok,
  quoting-eq-ok, All,
}
use edgecenter_ccm.Cloud.Types.{ServicePort, Pool, Node}
use edgecenter_ccm.Cloud.Client.{Client}
use edgecenter_ccm.Cloud.Wait.{IsBackoff}
use edgecenter_ccm.Loadbalancer.Names.{service_port_key, address_text}
use edgecenter_ccm.Loadbalancer.Members.Keys.{Place, place_text}
use edgecenter_ccm.Loadbalancer.Members.Changes.{
  place_of, place_wanted, same_length_and_texts, length-map,
}
use edgecenter_ccm.Loadbalancer.Options.Config.{ServiceOptions}
use edgecenter_ccm.Loadbalancer.Pools.{required}
use edgecenter_ccm.Loadbalancer.Members.{
  members_changed, desired_members, update_pool_members_with_retry, members_update, node_port_set,
  wait_pool_members_applied, update_pool, reconcile_pool, reconcile_pools, reconcile_pool_members,
  node_ips, node_address_for_lb,
}
use edgecenter_ccm.Loadbalancer.Members.Applied.{wait_pool_members_applied-Observed}

module _ (c : Client) (waits : IsBackoff c.backoff_with_context) (lb_id : Str)
    (opts : ServiceOptions) (ips : List Str) where
  open c use {State, IP, ip}

  abbrev texts : Pool IP → List Str
  texts p = map place_text (map (place_of ip) p.members)

  -- The place at which a node serves a port: its address, the port's node port and the subnet
  abbrev pub node_place : ServicePort → Str → Place
  node_place sp address = (address_text ip (ip.parse address), (sp.node_port, opts.subnet_id))

  -- The pool of a port has as many members as there are nodes, and one with the text of each node's
  -- place.
  abbrev pub IsSettled : ServicePort → Pool IP → Type 0
  IsSettled sp p =
      (length p.members ≡ length ips)
      × All (λ address. Mem (place_text (node_place sp address)) (texts p)) ips

  nodes_found :
      (sp : ServicePort) (keys addresses : List Str)
      → Subset (map place_text (map (place_wanted ip) (desired_members c sp opts addresses))) keys
      → All (λ address. Mem (place_text (node_place sp address)) keys) addresses
  unfolding desired_members
  nodes_found sp keys [] h = tt
  nodes_found sp keys (address ∷ addresses) h = (
    h (place_text (node_place sp address)) mem-cons_self,
    nodes_found sp keys addresses (λ k m. h k (mem-cons.1 (Or.inr m))),
  )

  unchanged-IsSettled :
      (sp : ServicePort) (p : Pool IP)
      → members_changed ip p.members (desired_members c sp opts ips) ≡ false
      → IsSettled sp p
  unfolding desired_members
  unchanged-IsSettled sp p h =
      let (same, none_lacks) =
        (same_length_and_texts ip p.members (desired_members c sp opts ips)).0 h in
      (same ∙ length-map ip _ ips, nodes_found sp (texts p) ips (Subset_of_lacks _ _ none_lacks))

  update_pool-IsSettled :
      (sp : ServicePort) (pool p : Pool IP) (s t : State)
      → update_pool c lb_id opts ips pool (desired_members c sp opts ips) s ≡ (ok p, t)
      → IsSettled sp p
  unfolding update_pool
  update_pool-IsSettled sp pool p s t h =
      let desired = desired_members c sp opts ips in
      let (_, s', _, waited) =
        >>=-eq-ok
          (quoting "PoolUpdate failed for pool %s: "
            (update_pool_members_with_retry c lb_id pool.id (members_update c pool desired)))
          _ s h in
      let (same, _, _, _) =
        wait_pool_members_applied-Observed c lb_id pool.id desired waits s' t p (
          wrapping-eq-ok "pool %s members were not observed after update: "
            (wait_pool_members_applied c lb_id pool.id desired) s' waited) in
      unchanged-IsSettled sp p same

  reconcile_pool-IsSettled :
      (sp : ServicePort) (pool p : Pool IP) (s t : State)
      → reconcile_pool c lb_id opts ips sp pool s ≡ (ok p, t)
      → IsSettled sp p
  unfolding reconcile_pool
  reconcile_pool-IsSettled sp pool p s t h =
      by_change (members_changed ip pool.members (desired_members c sp opts ips)) refl h
    where
      by_change :
          (b : Bool)
          → members_changed ip pool.members (desired_members c sp opts ips) ≡ b
          → (if b
                then update_pool c lb_id opts ips pool (desired_members c sp opts ips)
                else pure pool)
              s
            ≡ (ok p, t)
          → IsSettled sp p
      by_change true e h = update_pool-IsSettled sp pool p s t h
      by_change false e h = subst (IsSettled sp) (pure-eq-ok h) (unchanged-IsSettled sp pool e)

  -- Every port has a pool, and it is settled.
  abbrev pub AllSettled : List ServicePort → Dict (Pool IP) → Type 0
  AllSettled ports pools =
      All (λ sp. (p : Pool IP) × (lookup (service_port_key sp) pools ≡ some p) × IsSettled sp p)
        ports

  -- A port whose key is another keeps its pool.
  reconcile_pools-keeps :
      (ports : List ServicePort) (pools result : Dict (Pool IP)) (s t : State) (k : Str)
      → All (λ sp. ¬ (k ≡ service_port_key sp)) ports
      → reconcile_pools c lb_id opts ips ports pools s ≡ (ok result, t)
      → lookup k result ≡ lookup k pools
  unfolding reconcile_pools
  reconcile_pools-keeps [] pools result s t k fresh h = ground arith
  reconcile_pools-keeps (sp ∷ ports) pools result s t k (ne, fresh) h =
      let (pool, s1, _, h1) =
        >>=-eq-ok
          (required c (failure "pool for port key %s not found")
            (lookup (service_port_key sp) pools))
          _ s h in
      let (_, s2, _, h2) = >>=-eq-ok (node_port_set c sp) _ s1 h1 in
      let (p, s3, _, h3) = >>=-eq-ok (reconcile_pool c lb_id opts ips sp pool) _ s2 h2 in
      ground (
        arith,
        reconcile_pools-keeps ports (insert (service_port_key sp) p pools) result s3 t k fresh h3,
        lookup-insert (service_port_key sp) k p pools,
      )

  reconcile_pools-AllSettled :
      (ports : List ServicePort) (pools result : Dict (Pool IP)) (s t : State)
      → Distinct service_port_key ports
      → reconcile_pools c lb_id opts ips ports pools s ≡ (ok result, t)
      → AllSettled ports result
  unfolding reconcile_pools
  reconcile_pools-AllSettled [] pools result s t distinct h = tt
  reconcile_pools-AllSettled (sp ∷ ports) pools result s t (fresh, distinct) h =
      let (pool, s1, _, h1) =
        >>=-eq-ok
          (required c (failure "pool for port key %s not found")
            (lookup (service_port_key sp) pools))
          _ s h in
      let (_, s2, _, h2) = >>=-eq-ok (node_port_set c sp) _ s1 h1 in
      let (p, s3, e3, h3) = >>=-eq-ok (reconcile_pool c lb_id opts ips sp pool) _ s2 h2 in
      let m = insert (service_port_key sp) p pools in
      (
        (
          p,
          reconcile_pools-keeps ports m result s3 t (service_port_key sp) fresh h3
              ∙ lookup-insert_self (service_port_key sp) p pools,
          reconcile_pool-IsSettled sp pool p s2 s3 e3,
        ),
        reconcile_pools-AllSettled ports m result s3 t distinct h3,
      )

-- The addresses of the nodes are read from the nodes alone.
node_ips-keeps :
    (c : Client) (nodes : List Node) (s t : c.State) (ips : List Str)
    → node_ips c nodes s ≡ (ok ips, t)
    → t ≡ s
unfolding node_ips
node_ips-keeps c [] s t ips h = ground arith
node_ips-keeps c (n ∷ nodes) s t ips h =
    let (address, s1, h1, h') =
      >>=-eq-ok (quoting "nodeAddressForLB: " (lift (node_address_for_lb n))) _ s h in
    let (rest, s2, h2, h3) = >>=-eq-ok (node_ips c nodes) _ s1 h' in
    let lifted = quoting-eq-ok "nodeAddressForLB: " (lift (node_address_for_lb n)) s h1 in
    ground (arith, node_ips-keeps c nodes s1 s2 rest h2)

pub reconcile_pool_members-AllSettled :
    (c : Client) (waits : IsBackoff c.backoff_with_context) (lb_id : Str) (ports : List ServicePort)
    (pools result : Dict (Pool c.IP)) (opts : ServiceOptions) (nodes : List Node) (s t : c.State)
    → Distinct service_port_key ports
    → reconcile_pool_members c lb_id ports pools opts nodes s ≡ (ok result, t)
    → (ips : List Str) × (node_ips c nodes s ≡ (ok ips, s))
      × AllSettled c waits lb_id opts ips ports result
unfolding reconcile_pool_members
reconcile_pool_members-AllSettled c waits lb_id ports pools result opts nodes s t distinct h =
    let (ips, s', known, rest) = >>=-eq-ok (node_ips c nodes) _ s h in
    (
      ips,
      ground (arith, node_ips-keeps c nodes s s' ips known),
      reconcile_pools-AllSettled c waits lb_id opts ips ports pools result s' t distinct rest,
    )
