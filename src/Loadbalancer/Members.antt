-- ===== src/Loadbalancer/Members.antt =====
-- internal/edgecenter/loadbalancer_pools.go: the members of the pools follow the nodes.
pub mod Keys
pub mod Changes
pub mod Applied
pub mod Reconcile
pub mod Pop
use edgecenter_ccm.Prelude.{
  ℕ, Str, Option, none, some, Bool, true, false, not, ◌&&◌, List, [], ◌∷◌, map, ◌⊎◌, inl, inr,
  codes, find, any, length, ◌==◌, nat_eq, str_eq, if◌then◌else◌, Dict, insert, lookup, Err, failure,
  wrap, sentinel, no_address_found, Outcome, ok, err, panic, Exec, pure, lift, fail, attempt,
  wrapping, quoting, world, assign, ◌>>=◌, ◌>>◌,
}
use edgecenter_ccm.Cloud.Types.{
  ServicePort, Pool, PoolMember, PoolUpdate, MemberCreate, Node, NodeAddress, AddressType,
  internal_ip, external_ip, address_type_eq,
}
use edgecenter_ccm.Cloud.Client.{Client, IpText}
use edgecenter_ccm.Loadbalancer.Names.{service_port_key, pool_member_key, pool_member_create_key}
use edgecenter_ccm.Loadbalancer.Options.Config.{ServiceOptions}
use edgecenter_ccm.Loadbalancer.Pools.{required}
use edgecenter_ccm.Loadbalancer.Retry.{wait_active, run_lb_operation_with_retry, operation_steps}

-- The address of a node: the first internal one, or else the first external one.
abbrev address_of : AddressType → List NodeAddress → Option NodeAddress
address_of kind = find (λ a. a.kind == kind)

abbrev internal_or_external : Option NodeAddress → Option NodeAddress → Outcome Str
internal_or_external (some a) other = ok a.address
internal_or_external none (some a) = ok a.address
internal_or_external none none = err (sentinel no_address_found)

unfoldable pub node_address_for_lb : Node → Outcome Str
node_address_for_lb node =
    internal_or_external (address_of internal_ip node.addresses)
      (address_of external_ip node.addresses)

module _ {IP : Type 0} (ip : IpText IP) where
  abbrev pub member_keys : List (PoolMember IP) → List Str
  member_keys members = map (pool_member_key ip) members

  abbrev pub in_set : List Str → Str → Bool
  in_set keys key = any (λ k. k == key) keys

  unfoldable pub members_changed : List (PoolMember IP) → List (MemberCreate IP) → Bool
  members_changed current desired =
      if length current == length desired
      then any (λ d. not (in_set (member_keys current) (pool_member_create_key ip d))) desired
      else true

  -- `member.Address.String()` of a nil address is "<nil>".
  abbrev pub ip_string : Option IP → Str
  ip_string none = codes "<nil>"
  ip_string (some a) = ip.text a

  unfoldable pub member_exists : List (PoolMember IP) → Str → ℕ → Bool
  member_exists members address port =
      any (λ m. ip_string m.address == address && m.protocol_port == port) members

module _ (c : Client) where
  open c use {State, IP, ip, loadbalancers, backoff_with_context}

  -- `desiredNodeIPs`
  unfoldable pub node_ips : List Node → Exec State (List Str)
  node_ips [] = pure []
  node_ips (n ∷ nodes) = do
    address ← quoting "nodeAddressForLB: " (lift (node_address_for_lb n))
    rest ← node_ips nodes
    pure (address ∷ rest)

  unfoldable pub desired_members : ServicePort → ServiceOptions → List Str → List (MemberCreate IP)
  desired_members sp opts ips =
      map
        (λ address. record {
          address = ip.parse address;
          protocol_port = sp.node_port;
          subnet_id = opts.subnet_id;
        })
        ips

  -- What the closure of waitPoolMembersApplied captures: `lastPool` and `lastErr`.
  abbrev pub Seen : Type 0
  Seen = Option (Pool IP) × Option Err

  abbrev not_yet : Option (Pool IP) → Option Err → Exec (Seen × State) Bool
  not_yet pool e = do assign (pool, e); pure false

  module _ (lb_id pool_id : Str) (desired : List (MemberCreate IP)) where
    judge_pool : Seen → Err ⊎ Option (Pool IP) → Exec (Seen × State) Bool
    judge_pool (last, e) (inl x) = not_yet last (some (wrap "PoolGet failed for pool %s: " x))
    judge_pool (last, e) (inr none) = not_yet last (some (failure "pool %s not found after update"))
    judge_pool (last, e) (inr (some pool)) = do
      assign (some pool, e)
      pure (not (members_changed ip pool.members desired))

    get_pool : Seen → Err ⊎ Unit {0} → Exec (Seen × State) Bool
    unfolding judge_pool
    get_pool (last, e) (inl x) =
        not_yet last (some (wrap "LB not ACTIVE while waiting for pool %s members to apply: " x))
    get_pool seen (inr _) = do
      got ← attempt (world (loadbalancers.pool_get pool_id))
      judge_pool seen got

    pub applied_check : Exec (Seen × State) Bool
    unfolding get_pool
    applied_check (seen, s) =
        (do waited ← attempt (world (wait_active c lb_id)); get_pool seen waited) (seen, s)

    -- The result after the loop. The pool that goes with an error is not used by the caller.
    pub applied_result : Outcome (Unit {0}) → Seen → Outcome (Pool IP)
    applied_result (err e) (last, some seen) = err seen
    applied_result (err e) (last, none) = err e
    applied_result (ok _) (none, e) = err (failure "pool %s returned nil after update")
    applied_result (ok _) (some pool, e) = ok pool
    applied_result panic seen = panic

    unfoldable pub wait_pool_members_applied : Exec State (Pool IP)
    unfolding applied_check applied_result
    wait_pool_members_applied s =
        let (r, (seen, t)) =
          backoff_with_context Seen operation_steps applied_check ((none, none), s) in
        (applied_result r seen, t)

  unfoldable pub update_pool_members_with_retry : Str → Str → PoolUpdate IP → Exec State (Unit {0})
  update_pool_members_with_retry lb_id pool_id req =
      run_lb_operation_with_retry c lb_id (loadbalancers.pool_update pool_id req)

  unfoldable pub node_port_set : ServicePort → Exec State (Unit {0})
  node_port_set sp =
      if sp.node_port == 0 then fail (failure "service port %d has nodePort=0") else pure tt

  -- `updateReq`
  abbrev pub members_update : Pool IP → List (MemberCreate IP) → PoolUpdate IP
  members_update pool desired = record {
    id = pool.id;
    name = pool.name;
    members = desired;
    persistence = pool.persistence;
    algorithm = pool.algorithm;
  }

  module _ (lb_id : Str) (opts : ServiceOptions) (ips : List Str) where
    update_pool : Pool IP → List (MemberCreate IP) → Exec State (Pool IP)
    update_pool pool desired = do
      quoting "PoolUpdate failed for pool %s: "
          (update_pool_members_with_retry lb_id pool.id (members_update pool desired))
      wrapping "pool %s members were not observed after update: "
          (wait_pool_members_applied lb_id pool.id desired)

    -- The body of the loop over the ports, for a port with its pool.
    unfoldable pub reconcile_pool : ServicePort → Pool IP → Exec State (Pool IP)
    unfolding desired_members update_pool
    reconcile_pool sp pool =
        let desired = desired_members sp opts ips in
        if members_changed ip pool.members desired then update_pool pool desired else pure pool

    -- The loop; the map of pools is changed in place, and is returned here.
    unfoldable pub reconcile_pools : List ServicePort → Dict (Pool IP) → Exec State (Dict (Pool IP))
    unfolding node_port_set
    reconcile_pools [] pools = pure pools
    reconcile_pools (sp ∷ ports) pools = do
      pool ←
          required c (failure "pool for port key %s not found") (lookup (service_port_key sp) pools)
      node_port_set sp
      refreshed ← reconcile_pool sp pool
      reconcile_pools ports (insert (service_port_key sp) refreshed pools)

  unfoldable pub reconcile_pool_members :
      Str
      → List ServicePort
      → Dict (Pool IP)
      → ServiceOptions
      → List Node
      → Exec State (Dict (Pool IP))
  unfolding node_ips
  reconcile_pool_members lb_id ports pools opts nodes = do
    ips ← node_ips nodes
    reconcile_pools lb_id opts ips ports pools
