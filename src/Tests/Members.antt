-- ===== src/Tests/Members.antt =====
-- The theorems on members and on a whole reconciliation at concrete data.
use edgecenter_ccm.Loadbalancer.Find.{find_loadbalancer, get_loadbalancer_by_name}
use edgecenter_ccm.Util.SourceRanges.{get_load_balancer_source_ranges}
use edgecenter_ccm.Loadbalancer.Options.Annotations.{
  get_string_from_service_annotation, get_bool_from_service_annotation,
}
use edgecenter_ccm.Prelude.{
  Str, none, some, List, [], ◌∷◌, Dict, lookup, insert, Outcome, ok, ◌≡◌, refl, codes, nat_eq,
  str_eq, str_dec, ℕ_discrete, int_eq, decimal, to_lower, contains, has_prefix, message, split,
  trim_space,
}
use edgecenter_ccm.Cloud.Types.{
  Loadbalancer, round_robin, Pool, tcp, address_type_eq, protocol_eq, status_eq,
}
use edgecenter_ccm.Cloud.Wait.{run_backoff, run_backoff-IsBackoff}
use edgecenter_ccm.Loadbalancer.Options.Config.{ServiceOptions}
use edgecenter_ccm.Loadbalancer.Names.{service_port_key, pool_member_key, pool_member_create_key}
use edgecenter_ccm.Loadbalancer.Retry.{
  wait_active, judge_status, active_check, operation_check, after_operation,
  run_lb_operation_with_retry, is_load_balancer_immutable_error,
}
use edgecenter_ccm.Cloud.Types.{MemberCreate}
use edgecenter_ccm.Loadbalancer.Members.{wait_pool_members_applied}
use edgecenter_ccm.Loadbalancer.Members.Applied.{Observed, wait_pool_members_applied-Observed}
use edgecenter_ccm.Loadbalancer.Listeners.{
  ensure_load_balancer_listeners, ensure_listeners, ensure_listener, find_listener_for_service_port,
  unused_listeners,
}
use edgecenter_ccm.Loadbalancer.Pools.{
  ensure_load_balancer_pools, ensure_pools, ensure_pool, unused_pools,
}
use edgecenter_ccm.Loadbalancer.Members.{
  reconcile_pool_members, node_ips, node_address_for_lb, reconcile_pools, reconcile_pool,
  members_changed, update_pool_members_with_retry, wait_pool_members_applied, desired_members,
}
use edgecenter_ccm.Loadbalancer.Members.Reconcile.{AllSettled, reconcile_pool_members-AllSettled}
use edgecenter_ccm.Loadbalancer.Options.Secrets.{get_secret_id}
use edgecenter_ccm.Loadbalancer.Options.Resolve.{
  resolve_service_options, class_options, check_protocols, check_source_ranges,
  affinity_persistence,
}
use edgecenter_ccm.Loadbalancer.Ensure.{
  ensure_phase_loadbalancer, ensure_load_balancer, create_load_balancer, reconcile_loadbalancer,
  delete_obsolete_listeners_and_pools,
}
use edgecenter_ccm.Loadbalancer.Ensure.Reconciled.{Reconciled, ensure_load_balancer-Reconciled}
use edgecenter_ccm.Tests.Memory.{World, memory}
use edgecenter_ccm.Tests.Loadbalancers.{
  world, value, ports, ports-Distinct, svc, nodes, config, options, empty,
}

abbrev pub pool : Str → Pool Str
pool id = record {
  id = id;
  name = id;
  protocol = tcp;
  algorithm = round_robin;
  persistence = none;
  listeners = [];
  members = [];
}

abbrev pools : Dict (Pool Str)
unfolding codes
pools = (codes "tcp-80", pool (codes "p80")) ∷ (codes "web-tcp-443", pool (codes "p443")) ∷ []

abbrev with_pools : World
with_pools = record world { pools = pool (codes "p80") ∷ pool (codes "p443") ∷ [] }

abbrev settled : Outcome (Dict (Pool Str)) × World
settled = reconcile_pool_members memory (codes "lb") ports pools options nodes with_pools

reconcile_pool_members-AllSettled_example :
    (ips : List Str) × (node_ips memory nodes with_pools ≡ (ok ips, with_pools))
    × AllSettled memory run_backoff-IsBackoff (codes "lb") options ips ports (value [] settled)
unfolding reconcile_pool_members codes str_eq run_backoff node_address_for_lb address_type_eq
    reconcile_pools lookup service_port_key to_lower decimal nat_eq reconcile_pool members_changed
    update_pool_members_with_retry run_lb_operation_with_retry wait_active wait_pool_members_applied
    pool_member_key pool_member_create_key insert desired_members node_ips active_check
    after_operation is_load_balancer_immutable_error judge_status operation_check message contains
    has_prefix str_dec ℕ_discrete
reconcile_pool_members-AllSettled_example =
    reconcile_pool_members-AllSettled memory run_backoff-IsBackoff (codes "lb") ports pools
      (value [] settled) options nodes with_pools settled.1 ports-Distinct refl

abbrev ensured : Outcome Str × World
ensured = ensure_load_balancer memory config svc nodes empty

ensure_load_balancer-Reconciled_example :
    (opts : ServiceOptions) × (lb : Loadbalancer Str) × (s1 s2 : World) × (resolve_service_options
        memory config svc nodes empty
      ≡ (ok opts, s1))
    × (ensure_phase_loadbalancer memory config svc opts s1 ≡ (ok lb, s2))
    × Reconciled memory run_backoff-IsBackoff run_backoff-IsBackoff config svc nodes opts lb
        (codes "10.0.0.2")
        s2
        ensured.1
unfolding ensure_load_balancer codes str_eq run_backoff resolve_service_options
    get_string_from_service_annotation class_options get_bool_from_service_annotation
    check_protocols check_source_ranges get_load_balancer_source_ranges split trim_space nat_eq
    affinity_persistence get_secret_id ensure_phase_loadbalancer find_loadbalancer
    get_loadbalancer_by_name create_load_balancer decimal reconcile_loadbalancer wait_active
    ensure_load_balancer_listeners ensure_listeners ensure_listener find_listener_for_service_port
    ensure_load_balancer_pools ensure_pools insert service_port_key to_lower ensure_pool
    reconcile_pool_members node_address_for_lb address_type_eq reconcile_pools reconcile_pool
    members_changed update_pool_members_with_retry run_lb_operation_with_retry
    wait_pool_members_applied pool_member_key pool_member_create_key
    delete_obsolete_listeners_and_pools unused_pools unused_listeners
ensure_load_balancer-Reconciled_example =
    ensure_load_balancer-Reconciled memory run_backoff-IsBackoff run_backoff-IsBackoff config svc
      nodes (codes "10.0.0.2") empty ensured.1 ports-Distinct refl

abbrev wanted : List (MemberCreate Str)
wanted =
    record { address = some (codes "10.0.0.5"); protocol_port = 30080; subnet_id = codes "subnet" }
    ∷ []

abbrev pub full : Pool Str
full = record (pool (codes "p80")) {
  members =
      record {
        id = [];
        address = some (codes "10.0.0.5");
        protocol_port = 30080;
        subnet_id = codes "subnet";
      }
      ∷ [];
}

abbrev with_full : World
with_full = record world { pools = full ∷ [] }

wait_pool_members_applied-Observed_example : Observed memory (codes "lb") (codes "p80") wanted full
unfolding wait_pool_members_applied codes str_eq run_backoff wait_active members_changed nat_eq
    pool_member_key pool_member_create_key decimal
wait_pool_members_applied-Observed_example =
    wait_pool_members_applied-Observed memory (codes "lb") (codes "p80") wanted
      run_backoff-IsBackoff with_full with_full full refl
