-- ===== src/Tests/Deleted.antt =====
-- The deletion of a load balancer, and resources that are created and found again, at concrete data.
use edgecenter_ccm.SecurityGroups.Nodes.{disassociate_security_group_for_lb}
use edgecenter_ccm.Loadbalancer.Retry.{
  run_lb_operation_with_retry, wait_active, active_check, after_operation, deleted_check,
  is_load_balancer_immutable_error, judge_status, operation_check, wait_deleted,
}
use edgecenter_ccm.Loadbalancer.Pools.{get_pool_by_listener_id, delete_pool, delete_pool_with_retry}
use edgecenter_ccm.Loadbalancer.Names.{cut_string, get_load_balancer_name, get_security_group_name}
use edgecenter_ccm.Loadbalancer.Options.Annotations.{get_bool_from_service_annotation}
use edgecenter_ccm.Prelude.{
  Str, some, true, [], ◌∷◌, ◌⊎◌, ok, err, Err, codes, str_eq, nat_eq, int_eq, not_found, error_is,
  ◌≡◌, refl, lookup, str_dec, trim_suffix, ℕ_discrete, message, contains, has_prefix, none, false,
}
use edgecenter_ccm.Cloud.Types.{Loadbalancer, Listener, address_type_eq, protocol_eq, status_eq}
use edgecenter_ccm.Cloud.Wait.{run_backoff, run_backoff-IsBackoff, after_check}
use edgecenter_ccm.Loadbalancer.FloatingIps.{ensure_floating_ip}
use edgecenter_ccm.Loadbalancer.FloatingIps.Served.{Served, ensure_floating_ip-Served}
use edgecenter_ccm.Loadbalancer.Listeners.{
  ensure_listener, reload, resolve_listener_protocol, delete_listener_with_retry, delete_listener,
}
use edgecenter_ccm.Loadbalancer.Listeners.Settled.{made, ensure_listener-made}
use edgecenter_ccm.Loadbalancer.Find.{
  find_loadbalancer, by_legacy_name, by_name, get_loadbalancer_by_name,
}
use edgecenter_ccm.Loadbalancer.Delete.{
  ensure_load_balancer_deleted, delete_found_loadbalancer, ensure_listeners_deleted,
  ensure_listener_deleted, delete_found, delete_load_balancer, release_floating_ips,
}
use edgecenter_ccm.Loadbalancer.Delete.TornDown.{TornDown, ensure_load_balancer_deleted-TornDown}
use edgecenter_ccm.Loadbalancer.FloatingIps.{
  ensure_floating_ip, assign_found, assign_or_create, by_count, create_floating_ip,
  delete_floating_ips, get_floating_ips_by_addr, on_port, release_floating_ip,
}
use edgecenter_ccm.SecurityGroups.Ensure.{ensure_security_group_deleted, group_id}
use edgecenter_ccm.Tests.Memory.{World, memory}
use edgecenter_ccm.Tests.Loadbalancers.{world, svc, config, options, stale, http_port, lb}
use edgecenter_ccm.Tests.Parts.{owned}

-- A load balancer of the Service, with a listener
abbrev with_listener : World
with_listener = record world { loadbalancers = owned ∷ []; listeners = stale ∷ [] }

ensure_load_balancer_deleted-TornDown_example :
    ((lb : Loadbalancer Str) × (u : World) × (find_loadbalancer memory config svc with_listener
        ≡ (ok lb, u))
      × TornDown memory lb u)
    ⊎ ((e : Err) × (find_loadbalancer memory config svc with_listener
          ≡ (err e, (ensure_load_balancer_deleted memory config svc with_listener).1))
        × (error_is e not_found ≡ true))
unfolding ensure_load_balancer_deleted find_loadbalancer get_loadbalancer_by_name str_eq codes
    get_load_balancer_name trim_suffix nat_eq status_eq delete_found_loadbalancer
    ensure_listeners_deleted ensure_listener_deleted get_pool_by_listener_id
    delete_listener_with_retry run_lb_operation_with_retry run_backoff wait_active after_check
    delete_found delete_load_balancer release_floating_ips by_legacy_name by_name assign_found
    assign_or_create by_count create_floating_ip delete_floating_ips ensure_floating_ip
    get_floating_ips_by_addr on_port release_floating_ip delete_listener cut_string
    get_security_group_name get_bool_from_service_annotation delete_pool delete_pool_with_retry
    active_check after_operation deleted_check is_load_balancer_immutable_error judge_status
    operation_check wait_deleted lookup message contains has_prefix str_dec
    ensure_security_group_deleted group_id disassociate_security_group_for_lb ℕ_discrete
ensure_load_balancer_deleted-TornDown_example =
    ensure_load_balancer_deleted-TornDown memory run_backoff-IsBackoff run_backoff-IsBackoff config
      svc with_listener (ensure_load_balancer_deleted memory config svc with_listener).1 refl

abbrev made_listener : Listener
made_listener = made (codes "l80") (codes "lb") (codes "svc") http_port options

ensure_listener-made_example :
    ensure_listener memory lb options (stale ∷ made_listener ∷ []) http_port world
    ≡ reload memory (codes "l80") world
unfolding protocol_eq resolve_listener_protocol str_eq codes nat_eq
ensure_listener-made_example =
    ensure_listener-made memory (codes "l80") lb options http_port (stale ∷ []) [] world (refl, tt)

-- A cloud that lists no floating IP for a port, and creates one.
floating :
    ensure_floating_ip memory false (codes "port") none world
    ≡ (ok (some (codes "203.0.113.5")), world)
unfolding ensure_floating_ip codes
floating = refl

ensure_floating_ip-Served_example :
    Served memory (codes "port") none (some (codes "203.0.113.5")) world world
ensure_floating_ip-Served_example =
    ensure_floating_ip-Served memory (codes "port") none (some (codes "203.0.113.5")) world world
      floating
