-- ===== src/Tests/Loadbalancers.antt =====
-- The load balancer's theorems at concrete data: a Service with one port on a node.
use edgecenter_ccm.Prelude.{
  Str, none, some, true, false, List, [], ◌∷◌, Dict, lookup, insert, Outcome, ok, err, panic, refl,
  codes, nat_eq, str_eq, int_eq, decimal, to_lower, Exec, Distinct, All, pos,
}
use edgecenter_ccm.Cloud.Types.{
  ServicePort, Service, Node, internal_ip, Loadbalancer, active, round_robin, Pool, Listener, tcp,
  address_type_eq, protocol_eq, status_eq,
}
use edgecenter_ccm.Cloud.Wait.{run_backoff, run_backoff-IsBackoff}
use edgecenter_ccm.Loadbalancer.Options.Config.{Config, ServiceOptions}
use edgecenter_ccm.Loadbalancer.Names.{service_port_key}
use edgecenter_ccm.Loadbalancer.Retry.{wait_active, run_lb_operation_with_retry}
use edgecenter_ccm.Loadbalancer.Retry.Success.{run_lb_operation_with_retry-Applied, Applied}
use edgecenter_ccm.Loadbalancer.Registry.{Served}
use edgecenter_ccm.Loadbalancer.Listeners.{
  ensure_load_balancer_listeners, ensure_listeners, ensure_listener, find_listener_for_service_port,
  resolve_listener_protocol,
}
use edgecenter_ccm.Loadbalancer.Listeners.Complete.{
  listener_id, ensure_load_balancer_listeners-AllServed,
}
use edgecenter_ccm.Loadbalancer.Pools.{ensure_load_balancer_pools, ensure_pools, ensure_pool}
use edgecenter_ccm.Loadbalancer.Pools.Complete.{id_of_pool, ensure_load_balancer_pools-AllServed}
use edgecenter_ccm.Tests.Memory.{World, memory}

abbrev pub lb : Loadbalancer Str
lb = record {
  id = codes "lb";
  name = codes "svc";
  provisioning_status = active;
  vip_address = some (codes "10.0.0.2");
  vip_port_id = codes "port";
}

abbrev pub world : World
world = record { loadbalancers = lb ∷ []; listeners = []; pools = []; next_id = 0 }

abbrev pub value : {A S : Type 0} → A → Outcome A × S → A
value d (ok a, s) = a
value d (err e, s) = d
value d (panic, s) = d

abbrev pub http_port : ServicePort
http_port = record { name = []; protocol = codes "TCP"; port = 80; node_port = 30080 }

abbrev pub https_port : ServicePort
https_port = record { name = codes "web"; protocol = codes "TCP"; port = 443; node_port = 30443 }

abbrev pub ports : List ServicePort
ports = http_port ∷ https_port ∷ []

pub ports-Distinct : Distinct service_port_key ports
unfolding service_port_key codes to_lower decimal
ports-Distinct = ((λ e. cc, tt), (tt, tt))

abbrev pub svc : Service
svc = record {
  namespace = codes "default";
  name = codes "web";
  uid = codes "u1";
  annotations = [];
  ports = ports;
  session_affinity = codes "ClientIP";
  source_ranges = [];
  health_check_node_port = 0;
  traffic_policy_local = false;
  ingress = [];
}

abbrev pub nodes : List Node
nodes =
    record {
      name = codes "node";
      provider_id = codes "edgecenter:///i-1";
      addresses = record { kind = internal_ip; address = codes "10.0.0.5" } ∷ [];
    }
    ∷ []

abbrev pub config : Config
config = record {
  use_octavia = true;
  subnet_id = codes "subnet";
  network_id = codes "net";
  floating_network_id = [];
  lb_classes = [];
  lb_method = round_robin;
  create_monitor = true;
  monitor_delay = 60;
  monitor_timeout = 30;
  monitor_max_retries = 5;
  manage_security_groups = false;
  internal_lb = true;
  project_id = pos 7;
  region_id = pos 3;
  cluster_id = codes "c1";
}

abbrev pub options : ServiceOptions
options = record {
  flavor_id = [];
  network_id = codes "net";
  subnet_id = codes "subnet";
  floating_network_id = [];
  internal = true;
  keep_client_ip = false;
  use_proxy_protocol = false;
  secret_id = [];
  timeouts = none;
  lb_method = round_robin;
  session_persistence = none;
  create_monitor = false;
  manage_security_groups = false;
}

-- No load balancer yet.
abbrev pub empty : World
empty = record { loadbalancers = []; listeners = []; pools = []; next_id = 0 }

abbrev pub stale : Listener
stale = record {
  id = codes "old";
  name = codes "old";
  protocol = tcp;
  protocol_port = 8080;
  secret_id = [];
  timeout_client_data = none;
  timeout_member_data = none;
  timeout_member_connect = none;
}

abbrev listening : World
listening = record world { listeners = stale ∷ [] }

abbrev operation : Exec World (Unit {0})
operation = memory.loadbalancers.pool_delete (codes "p")

run_lb_operation_with_retry-Applied_example : Applied memory (codes "lb") operation world
unfolding run_lb_operation_with_retry codes str_eq run_backoff wait_active
run_lb_operation_with_retry-Applied_example =
    run_lb_operation_with_retry-Applied memory (codes "lb") operation run_backoff-IsBackoff
      run_backoff-IsBackoff world world refl

abbrev found : Outcome (Dict Listener × List Listener) × World
found = ensure_load_balancer_listeners memory lb ports options listening

ensure_load_balancer_listeners-AllServed_example :
    All
      (λ sp.
        Served listener_id (value ([], []) found).0 (value ([], []) found).1 (service_port_key sp))
      ports
unfolding ensure_load_balancer_listeners codes str_eq run_backoff ensure_listeners ensure_listener
    find_listener_for_service_port protocol_eq resolve_listener_protocol nat_eq decimal wait_active
ensure_load_balancer_listeners-AllServed_example =
    ensure_load_balancer_listeners-AllServed memory lb options ports (value ([], []) found).0
      (value ([], []) found).1 listening found.1 refl

abbrev pooled : Outcome (Dict (Pool Str) × List (Pool Str)) × World
pooled = ensure_load_balancer_pools memory config lb options ports (value ([], []) found).0 found.1

ensure_load_balancer_pools-AllServed_example :
    All
      (λ sp.
        Served id_of_pool (value ([], []) pooled).0 (value ([], []) pooled).1 (service_port_key sp))
      ports
unfolding ensure_load_balancer_pools codes str_eq run_backoff ensure_pools lookup
    ensure_load_balancer_listeners ensure_listeners ensure_listener find_listener_for_service_port
    protocol_eq resolve_listener_protocol nat_eq decimal wait_active insert service_port_key
    to_lower ensure_pool
ensure_load_balancer_pools-AllServed_example =
    ensure_load_balancer_pools-AllServed memory config lb options ports (value ([], []) found).0
      (value ([], []) pooled).0 (value ([], []) pooled).1 found.1 pooled.1 refl
