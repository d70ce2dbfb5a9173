-- ===== src/Loadbalancer/Options/Resolve.antt =====
-- resolveServiceOptions of internal/edgecenter/loadbalancer.go. The parts follow one another as in the
-- source, each with its early returns.
pub mod Checked
use edgecenter_ccm.Prelude.{
  Str, Option, none, some, Bool, true, false, not, ◌&&◌, ◌||◌, List, [], ◌∷◌, ◌⊎◌, inl, inr, codes,
  find, all, ◌==◌, str_eq, if◌then◌else◌, cut_at, reverse_text, lookup, Err, failure, sentinel,
  not_found, quote, Outcome, ok, err, panic, Exec, pure, fail, deref, attempt, wrapping, quoting,
  lift, ◌>>=◌, ◌>>◌,
}
use edgecenter_ccm.Cloud.Types.{
  Service, Node, Interface, IpAssignment, Algorithm, round_robin, other_algorithm, Persistence,
  persist_source_ip,
}
use edgecenter_ccm.Cloud.Client.{Client}
use edgecenter_ccm.Loadbalancer.Members.{node_address_for_lb, ip_string}
use edgecenter_ccm.Loadbalancer.Options.Annotations.{
  get_string_from_service_annotation, get_bool_from_service_annotation, parse_listener_timeouts,
  ListenerTimeouts,
}
use edgecenter_ccm.Loadbalancer.Options.Config.{Config, LbClass, ServiceOptions}
use edgecenter_ccm.Loadbalancer.Options.Networks.{
  get_subnet_id_for_lb, get_floating_network_id_for_lb,
}
use edgecenter_ccm.Loadbalancer.Options.Secrets.{get_secret_id}
use edgecenter_ccm.Util.SourceRanges.{get_load_balancer_source_ranges, is_allow_all}

abbrev is_set : Str → Bool
is_set s = not (s == [])

-- The options that the annotations and the configuration give at the start. The fields that later
-- parts set hold Go's zero values.
abbrev pub initial_options : Config → Service → ServiceOptions
initial_options config svc = record {
  flavor_id =
      get_string_from_service_annotation svc (codes "loadbalancer.edgecenter.com/flavor-id")
        (codes "lb1-1-2");
  network_id =
      get_string_from_service_annotation svc (codes "loadbalancer.edgecenter.com/network-id")
        config.network_id;
  subnet_id =
      get_string_from_service_annotation svc (codes "loadbalancer.edgecenter.com/subnet-id")
        config.subnet_id;
  floating_network_id =
      get_string_from_service_annotation svc
        (codes "loadbalancer.edgecenter.com/floating-network-id") config.floating_network_id;
  internal = false;
  keep_client_ip = false;
  use_proxy_protocol = false;
  secret_id = [];
  timeouts = none;
  lb_method = config.lb_method;
  session_persistence = none;
  create_monitor = config.create_monitor;
  manage_security_groups = config.manage_security_groups;
}

abbrev or_else : Str → Str → Str
or_else s default = if s == [] then default else s

-- Whether a class makes the load balancer internal; a class with no network at all is an error.
unfoldable pub class_internal : LbClass → Outcome Bool
class_internal k =
    if k.floating_network_id == [] && k.floating_subnet_id == []
    then (if k.subnet_id == []
        then err (failure "empty loadbalancer class configuration for class %q")
        else ok true)
    else ok false

abbrev apply_class : LbClass → ServiceOptions → Bool → ServiceOptions
apply_class k opts internal = record opts {
  network_id = or_else k.network_id opts.network_id;
  subnet_id = or_else k.subnet_id opts.subnet_id;
  floating_network_id = or_else k.floating_network_id opts.floating_network_id;
  internal = internal;
}

abbrev map_ok : {A B : Type 0} → (A → B) → Outcome A → Outcome B
map_ok f (ok a) = ok (f a)
map_ok f (err e) = err e
map_ok f panic = panic

-- `class != ""`, and the annotation for an internal load balancer where there is no class
unfoldable pub class_options : Config → Service → ServiceOptions → Outcome ServiceOptions
unfolding class_internal
class_options config svc opts =
    let class =
      get_string_from_service_annotation svc (codes "loadbalancer.edgecenter.com/class") [] in
    if class == []
    then map_ok (λ internal. record opts { internal = internal })
        (get_bool_from_service_annotation svc
          (codes "service.beta.kubernetes.io/edgecenter-internal-load-balancer") config.internal_lb)
    else (elim (lookup class config.lb_classes) [
      | none ↦ err (failure "invalid loadbalancer class %q")
      | some k ↦ map_ok (apply_class k opts) (class_internal k)
    ])

-- Without Octavia every port is TCP.
unfoldable pub check_protocols : Config → Service → Outcome (Unit {0})
check_protocols config svc =
    if config.use_octavia || all (λ p. p.protocol == codes "TCP") svc.ports
    then ok tt
    else err (failure "only TCP LoadBalancer is supported for edgecenter load balancers")

unfoldable pub check_source_ranges :
    (Str → Option Str) → Config → Service → ServiceOptions → Outcome (Unit {0})
check_source_ranges parse_cidr config svc opts =
    elim (get_load_balancer_source_ranges parse_cidr svc) [
      | ok nets ↦
          if not config.use_octavia && (not (is_allow_all nets) && not opts.manage_security_groups)
          then err (
              failure
                "source range restrictions are not supported for edgecenter load balancers without managing security groups")
          else ok tt
      | err e ↦ err (quote "failed to get source ranges for loadbalancer service %s/%s: " e)
      | panic ↦ panic
    ]

unfoldable pub affinity_persistence : Service → Outcome (Option Persistence)
affinity_persistence svc =
    if svc.session_affinity == codes "ClientIP"
    then ok (some persist_source_ip)
    else if svc.session_affinity == codes "None"
    then ok none
    else err (failure "unsupported load balancer affinity: %v")

unfoldable pub supported_method : Algorithm → Algorithm
supported_method (other_algorithm name) = round_robin
supported_method method = method

-- A wrong timeout annotation is only logged.
abbrev pub timeouts_or_none : Outcome ListenerTimeouts → Option ListenerTimeouts
timeouts_or_none (ok t) = some t
timeouts_or_none _ = none

module _ (c : Client) where
  open c use {State, IP, ip}

  abbrev first_node : List Node → Option Node
  first_node [] = none
  first_node (n ∷ nodes) = some n

  unfoldable pub detect_subnet : List Node → ServiceOptions → Exec State ServiceOptions
  detect_subnet nodes opts =
      let detect : Exec State ServiceOptions = (do
        node ← deref (first_node nodes)
        subnet_id ←
            quoting
              "no subnet-id for service %s/%s: subnet-id not set in cloud provider config, and failed to find subnet-id from Edgecenter: "
              (get_subnet_id_for_lb c node)
        pure (record opts { subnet_id = subnet_id })) in
      if opts.subnet_id == [] && opts.network_id == [] then detect else pure opts

  unfoldable pub use_floating_network : ServiceOptions → Err ⊎ Str → Exec State ServiceOptions
  use_floating_network opts (inl e) = pure opts
  use_floating_network opts (inr id) = pure (record opts { floating_network_id = id })

  unfoldable pub detect_floating_network : ServiceOptions → Exec State ServiceOptions
  unfolding use_floating_network
  detect_floating_network opts =
      let detect : Exec State ServiceOptions = (do
        found ← attempt (get_floating_network_id_for_lb c)
        use_floating_network opts found) in
      if opts.floating_network_id == [] && not opts.internal then detect else pure opts

  unfoldable pub floating_network_known : ServiceOptions → Exec State (Unit {0})
  floating_network_known opts =
      if not opts.internal && opts.floating_network_id == []
      then fail (
          failure
            "floating-network-id or %s should be specified when ensuring an external loadbalancer service")
      else pure tt

  -- Proxy protocol and X-Forwarded-For exclude each other.
  unfoldable pub client_ip_options : Service → ServiceOptions → Exec State ServiceOptions
  client_ip_options svc opts = do
    keep_client_ip ← wrapping "failed to get X-Forwarded-For annotation: " (
        lift (
          get_bool_from_service_annotation svc (codes "loadbalancer.edgecenter.com/x-forwarded-for")
            false))
    use_proxy_protocol ← lift (
        get_bool_from_service_annotation svc (codes "loadbalancer.edgecenter.com/proxy-protocol")
          false)
    if use_proxy_protocol && keep_client_ip
        then fail (failure "annotation %s and %s cannot be used together")
        else pure (record opts {
          keep_client_ip = keep_client_ip;
          use_proxy_protocol = use_proxy_protocol;
        })

  unfoldable pub resolve_service_options : Config → Service → List Node → Exec State ServiceOptions
  unfolding detect_subnet detect_floating_network floating_network_known client_ip_options
  resolve_service_options config svc nodes = do
    with_subnet ← detect_subnet nodes (initial_options config svc)
    with_class ← lift (class_options config svc with_subnet)
    with_floating ← detect_floating_network with_class
    floating_network_known with_floating
    lift (check_protocols config svc)
    lift (check_source_ranges ip.parse_cidr config svc with_floating)
    persistence ← lift (affinity_persistence svc)
    with_client_ip ← client_ip_options svc (record with_floating {
      session_persistence = persistence;
      lb_method = supported_method config.lb_method;
    })
    secret_id ← get_secret_id c config svc
    pure (record with_client_ip {
      timeouts = timeouts_or_none (parse_listener_timeouts svc);
      secret_id = secret_id;
    })
