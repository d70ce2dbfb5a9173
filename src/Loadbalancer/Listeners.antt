-- ===== src/Loadbalancer/Listeners.antt =====
-- internal/edgecenter/loadbalancer_listeners.go: the listener of each Service port.
pub mod Complete
pub mod Changes
pub mod Settled
use edgecenter_ccm.Prelude.{
  Str, Option, none, some, Bool, true, false, not, ◌&&◌, List, [], ◌∷◌, codes, find, filter, any,
  ◌==◌, nat_eq, str_eq, int_eq, ℤ, if◌then◌else◌, Dict, insert, failure, Outcome, ok, err, panic,
  Exec, pure, fail, deref, wrapping, quoting, ◌>>=◌, ◌>>◌,
}
use edgecenter_ccm.Cloud.Types.{
  ServicePort, Loadbalancer, Listener, ListenerCreate, ListenerUpdate, Protocol, tcp, udp, http,
  terminated_https, protocol_eq,
}
use edgecenter_ccm.Cloud.Client.{Client}
use edgecenter_ccm.Loadbalancer.Names.{service_port_key, build_listener_name}
use edgecenter_ccm.Loadbalancer.Options.Annotations.{ListenerTimeouts}
use edgecenter_ccm.Loadbalancer.Options.Config.{ServiceOptions}
use edgecenter_ccm.Loadbalancer.Retry.{wait_active, run_lb_operation_with_retry}

-- `a != nil && b != nil && *a == *b || a == nil && b == nil`
unfoldable pub int_ptr_equal : Option ℤ → Option ℤ → Bool
int_ptr_equal none none = true
int_ptr_equal none (some b) = false
int_ptr_equal (some a) none = false
int_ptr_equal (some a) (some b) = a == b

-- The switch on corev1.Protocol, whose default is defaultLBProtocol.
abbrev transport_protocol : Str → Protocol
transport_protocol p = if p == codes "TCP" then tcp else if p == codes "UDP" then udp else tcp

unfoldable pub resolve_listener_protocol : Str → Bool → Str → Protocol
resolve_listener_protocol protocol keep_client_ip secret_id =
    if secret_id == []
    then if keep_client_ip then http else transport_protocol protocol
    else terminated_https

abbrev pub want_protocol : ServicePort → ServiceOptions → Protocol
want_protocol sp opts = resolve_listener_protocol sp.protocol opts.keep_client_ip opts.secret_id

abbrev pub matches_port : ServicePort → ServiceOptions → Listener → Bool
matches_port sp opts ln = ln.protocol == want_protocol sp opts && ln.protocol_port == sp.port

unfoldable pub find_listener_for_service_port :
    List Listener → ServicePort → ServiceOptions → Option Listener
find_listener_for_service_port existing sp opts = find (matches_port sp opts) existing

abbrev no_timeouts : ListenerTimeouts
no_timeouts = record { client_data = none; member_data = none; member_connect = none }

abbrev pub or_unset : Option ListenerTimeouts → ListenerTimeouts
or_unset none = no_timeouts
or_unset (some t) = t

unfoldable pub build_listener_create_request :
    Str → Str → ServicePort → ServiceOptions → ListenerCreate
build_listener_create_request lb_id lb_name sp opts =
    let t : ListenerTimeouts = or_unset opts.timeouts in
    record {
      name = build_listener_name lb_name sp;
      protocol = want_protocol sp opts;
      protocol_port = sp.port;
      loadbalancer_id = lb_id;
      insert_x_forwarded = opts.keep_client_ip;
      secret_id = opts.secret_id;
      timeout_client_data = t.client_data;
      timeout_member_data = t.member_data;
      timeout_member_connect = t.member_connect;
    }

abbrev empty_update : ListenerUpdate
empty_update = record {
  name = [];
  secret_id = [];
  timeout_client_data = none;
  timeout_member_data = none;
  timeout_member_connect = none;
}

-- The fields of the update that differ from the listener, and `needsUpdate`.
abbrev timeout_changes : Listener → Option ListenerTimeouts → ListenerUpdate × Bool
timeout_changes ln none = (empty_update, false)
timeout_changes ln (some t) =
    let same_client = int_ptr_equal ln.timeout_client_data t.client_data in
    let same_member = int_ptr_equal ln.timeout_member_data t.member_data in
    let same_connect = int_ptr_equal ln.timeout_member_connect t.member_connect in
    (
      record {
        name = [];
        secret_id = [];
        timeout_client_data = if same_client then none else t.client_data;
        timeout_member_data = if same_member then none else t.member_data;
        timeout_member_connect = if same_connect then none else t.member_connect;
      },
      not (same_client && same_member && same_connect),
    )

unfoldable pub listener_changes : Listener → ServiceOptions → ListenerUpdate × Bool
unfolding int_ptr_equal
listener_changes ln opts =
    let (req, needs_update) = timeout_changes ln opts.timeouts in
    if ln.secret_id == opts.secret_id
    then (req, needs_update)
    else (record req { secret_id = opts.secret_id }, true)

-- Listeners whose IDs are not among the used ones.
unfoldable pub unused_listeners : List Str → List Listener → List Listener
unused_listeners used existing = filter (λ ln. not (any (λ id. id == ln.id) used)) existing

-- `listener, err = l.getListenerByID(…); if err != nil { … listener.ID … }`: the pointer that the
-- error case follows is nil.
abbrev pub reloaded : {A : Type 0} → Outcome A → Outcome A
reloaded (ok a) = ok a
reloaded (err e) = panic
reloaded panic = panic

module _ (c : Client) where
  open c use {State, IP, loadbalancers}

  -- getListenersByLoadBalancerID and getListenerByID
  abbrev pub get_listeners_by_load_balancer_id : Str → Exec State (List Listener)
  get_listeners_by_load_balancer_id lb_id = loadbalancers.listener_list lb_id

  abbrev get_listener_by_id : Str → Exec State Listener
  get_listener_by_id id = loadbalancers.listener_get id

  abbrev head_id : List Str → Option Str
  head_id [] = none
  head_id (id ∷ ids) = some id

  unfoldable pub create_listener : ListenerCreate → Exec State Listener
  create_listener opts = do
    listeners ←
        wrapping "failed to create listener for loadbalancer %s: "
          (loadbalancers.listener_create opts)
    id ← deref (head_id listeners)
    wrapping "cannot get loadbalancer listener with ID: %s. Error: " (loadbalancers.listener_get id)

  unfoldable pub reload : Str → Exec State Listener
  reload id s = let (r, t) = get_listener_by_id id s in (reloaded r, t)

  unfoldable pub update_listener_if_needed : Str → Listener → ServiceOptions → Exec State (Unit {0})
  update_listener_if_needed lb_id ln opts =
      let (req, needs_update) = listener_changes ln opts in
      let update : Exec State (Unit {0}) = (do
        quoting "failed updating listener %s: "
            (loadbalancers.listener_update ln.id (record req { name = ln.name }))
        quoting "LB not ACTIVE after listener update: " (wait_active c lb_id)) in
      if needs_update then update else pure tt

  -- The body of the loop over the ports: an existing listener is updated, a missing one created.
  unfoldable pub ensure_listener :
      Loadbalancer IP → ServiceOptions → List Listener → ServicePort → Exec State Listener
  unfolding create_listener update_listener_if_needed reload
  ensure_listener lb opts existing port = elim (find_listener_for_service_port existing port opts) [
    | none ↦ do
      created ←
          wrapping "failed to create listener for key=%s: "
            (create_listener (build_listener_create_request lb.id lb.name port opts))
      quoting "LB not ACTIVE after listener create for key=%s: " (wait_active c lb.id)
      reload created.id
    | some ln ↦ do
      wrapping "failed updating listener for key=%s: " (update_listener_if_needed lb.id ln opts)
      reload ln.id
  ]

  -- The loop: the listeners by port key, and the IDs in use.
  unfoldable pub ensure_listeners :
      Loadbalancer IP
      → ServiceOptions
      → List Listener
      → List ServicePort
      → Dict Listener
      → List Str
      → Exec State (Dict Listener × List Str)
  ensure_listeners lb opts existing [] result used = pure (result, used)
  ensure_listeners lb opts existing (port ∷ ports) result used = do
    ln ← ensure_listener lb opts existing port
    ensure_listeners lb opts existing ports (insert (service_port_key port) ln result)
        (ln.id ∷ used)

  unfoldable pub ensure_load_balancer_listeners :
      Loadbalancer IP
      → List ServicePort
      → ServiceOptions
      → Exec State (Dict Listener × List Listener)
  ensure_load_balancer_listeners lb ports opts = do
    existing ← wrapping "error getting LB %s listeners: " (get_listeners_by_load_balancer_id lb.id)
    found ← ensure_listeners lb opts existing ports [] []
    pure (found.0, unused_listeners found.1 existing)

  remaining : Option Str → Exec State (Unit {0})
  remaining none = pure tt
  remaining (some id) = do
    exists ←
        wrapping "deleteListener: failed to check existence of listener %q: "
          (loadbalancers.listener_is_exist id)
    if exists
        then fail (failure "deleteListener: listener %q still exists after deletion attempt")
        else pure tt

  unfoldable pub delete_listener : Str → Exec State (Unit {0})
  unfolding remaining
  delete_listener id = do
    listeners ←
        wrapping "deleteListener: failed to delete listener %q: " (loadbalancers.listener_delete id)
    remaining (head_id listeners)

  unfoldable pub delete_listener_with_retry : Str → Str → Exec State (Unit {0})
  unfolding delete_listener
  delete_listener_with_retry lb_id id = run_lb_operation_with_retry c lb_id (delete_listener id)
